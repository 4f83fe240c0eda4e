-- ===== src/Devices/Parts/Atmega328p.antt =====
-- src/devdescr.cc, the entries from atmega328p to atmega32hvb. What is not listed of a description is 0.
use jtag_js.Base.{◌*◌, ◌/◌, false, none, some, [], ◌∷◌, zeros, codes, hexes, ◌++◌}
use jtag_js.Devices.{DeviceDef, fill_b2, fill_b4, no_mk1_desc, no_mk2_desc, devfl_mkii_only}

abbrev pub atmega328p : DeviceDef
atmega328p = record {
  name = some (codes "atmega328p");
  device_id = 0x950F;
  flash_page_size = 128;
  flash_page_count = 256;
  eeprom_page_size = 4;
  eeprom_page_count = 256;
  vectors_end = 26 * 4;
  device_flags = devfl_mkii_only;
  io_reg_defs = none;
  is_xmega = false;
  dev_desc1 = no_mk1_desc 0;
  dev_desc2 = record no_mk2_desc {
    uc_read_io = hexes "F8 0F E0 F8 FF 3D B9 E0";
    uc_write_io = hexes "B0 0D 00 E0 FF 1D B8 E0";
    uc_read_ext_io = hexes "53 FB 01 DF F7 0F 00 00 00 00 5F 3F 37" ++ zeros 39;
    uc_write_ext_io = hexes "00 FB 01 D8 F7 0F 00 00 00 00 5F 2F 36" ++ zeros 39;
    ui_flash_page_size = fill_b2 128;
    uc_eeprom_page_size = 4;
    ul_boot_address = fill_b4 0x3F00;
    ui_upper_ext_io_loc = fill_b2 0xC6;
    ul_flash_size = fill_b4 32768;
    uc_eeprom_inst = hexes "BD F2 BD E1 BB CF B4 00 BE 01 B6 01 BC 00 BB BF 99 F9 BB AF";
    uc_flash_inst = 0xB6 ∷ 0x01 ∷ 0x11 ∷ [];
    uc_sph_addr = 0x3E;
    uc_spl_addr = 0x3D;
    ui_flashpages = fill_b2 (32768 / 128);
    uc_dwdr_address = 0x31;
    ui_start_smallest_boot_loader_section = fill_b2 0x3F00;
    enable_page_programming = 1;
    ui_sram_start_addr = fill_b2 0x100;
    eecr_address = fill_b2 0x1F;
  };
}

abbrev pub atmega3290p : DeviceDef
atmega3290p = record {
  name = some (codes "atmega3290p");
  device_id = 0x950C;
  flash_page_size = 128;
  flash_page_count = 256;
  eeprom_page_size = 4;
  eeprom_page_count = 256;
  vectors_end = 25 * 4;
  device_flags = devfl_mkii_only;
  io_reg_defs = none;
  is_xmega = false;
  dev_desc1 = no_mk1_desc 0;
  dev_desc2 = record no_mk2_desc {
    uc_read_io = hexes "FF FF FF F0 DF 3C B9 E0";
    uc_write_io = hexes "B6 6D 1B E0 DF 1C B8 E0";
    uc_read_ext_io =
        hexes "53 FA 09 DF F7 0F 00 00 00 00 4D 07 37 00 00 3F F0 F0 FF FF" ++ zeros 32;
    uc_write_ext_io =
        hexes "53 FA 09 D8 F7 0F 00 00 00 00 4D 05 36 00 00 3F E0 F0 FF FF" ++ zeros 32;
    uc_idr_address = 0x31;
    uc_spmcr_address = 0x57;
    ui_flash_page_size = fill_b2 128;
    uc_eeprom_page_size = 4;
    ul_boot_address = fill_b4 0x3F00;
    ui_upper_ext_io_loc = fill_b2 0xFF;
    ul_flash_size = fill_b4 32768;
    uc_sph_addr = 0x3E;
    uc_spl_addr = 0x3D;
    ui_flashpages = fill_b2 (32768 / 128);
    uc_dw_base_pc = 0x40;
    enable_page_programming = 1;
    ui_sram_start_addr = fill_b2 0x100;
    uc_pc_mask_high = 0x40;
    eecr_address = fill_b2 0x1F;
  };
}

abbrev pub atmega329p : DeviceDef
atmega329p = record {
  name = some (codes "atmega329p");
  device_id = 0x9503;
  flash_page_size = 128;
  flash_page_count = 256;
  eeprom_page_size = 4;
  eeprom_page_count = 256;
  vectors_end = 23 * 4;
  device_flags = devfl_mkii_only;
  io_reg_defs = none;
  is_xmega = false;
  dev_desc1 = no_mk1_desc 0;
  dev_desc2 = record no_mk2_desc {
    uc_read_io = hexes "FF FF FF F0 DF 3C B9 E0";
    uc_write_io = hexes "B6 6D 1B E0 DF 1C B8 E0";
    uc_read_ext_io =
        hexes "53 DA 01 DF F7 0F 00 00 00 00 4D 07 37 00 00 00 F0 F0 DE 7B" ++ zeros 32;
    uc_write_ext_io =
        hexes "53 DA 01 D8 F7 0F 00 00 00 00 4D 05 36 00 00 00 E0 F0 DE 7B" ++ zeros 32;
    uc_idr_address = 0x31;
    uc_spmcr_address = 0x57;
    ui_flash_page_size = fill_b2 128;
    uc_eeprom_page_size = 4;
    ul_boot_address = fill_b4 0x3F00;
    ui_upper_ext_io_loc = fill_b2 0xFE;
    ul_flash_size = fill_b4 32768;
    uc_sph_addr = 0x3E;
    uc_spl_addr = 0x3D;
    ui_flashpages = fill_b2 (32768 / 128);
    uc_dw_base_pc = 0x40;
    enable_page_programming = 1;
    ui_sram_start_addr = fill_b2 0x100;
    uc_pc_mask_high = 0x40;
    eecr_address = fill_b2 0x1F;
  };
}

abbrev pub atmega32hvb : DeviceDef
atmega32hvb = record {
  name = some (codes "atmega32hvb");
  device_id = 0x9510;
  flash_page_size = 128;
  flash_page_count = 256;
  eeprom_page_size = 4;
  eeprom_page_count = 256;
  vectors_end = 29 * 4;
  device_flags = devfl_mkii_only;
  io_reg_defs = none;
  is_xmega = false;
  dev_desc1 = no_mk1_desc 0;
  dev_desc2 = record no_mk2_desc {
    uc_read_io = hexes "7F 01 E0 F8 FF 3F B8 E0";
    uc_write_io = hexes "37 01 00 E0 FF 1F A8 E0";
    uc_read_ext_io =
        hexes "53 DB 00 57 33 03 00 00 00 00 00 7F 00 01 17 00 FF 07 EF 7F" ++ zeros 32;
    uc_write_ext_io =
        hexes "50 DB 00 50 33 03 00 00 00 00 00 7F 00 00 17 00 CF 07 EF 3F" ++ zeros 32;
    uc_spmcr_address = 0x57;
    ui_flash_page_size = fill_b2 128;
    uc_eeprom_page_size = 4;
    ul_boot_address = fill_b4 0x3F00;
    ui_upper_ext_io_loc = fill_b2 0xFE;
    ul_flash_size = fill_b4 32768;
    uc_eeprom_inst = hexes "BD F2 BD E1 BB CF B4 00 BE 01 B6 01 BC 00 BB BF 99 F9 BB AF";
    uc_flash_inst = 0xB6 ∷ 0x01 ∷ 0x11 ∷ [];
    uc_sph_addr = 0x3E;
    uc_spl_addr = 0x3D;
    ui_flashpages = fill_b2 (32768 / 128);
    uc_dwdr_address = 0x31;
    ui_start_smallest_boot_loader_section = fill_b2 0x3F00;
    enable_page_programming = 1;
    ui_sram_start_addr = fill_b2 0x100;
    eecr_address = fill_b2 0x1F;
  };
}
