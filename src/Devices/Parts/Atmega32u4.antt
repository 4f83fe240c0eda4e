-- ===== src/Devices/Parts/Atmega32u4.antt =====
-- src/devdescr.cc, the entries from atmega32u4 to atmega644p. What is not listed of a description is 0.
use jtag_js.Base.{◌*◌, ◌/◌, false, none, some, [], ◌∷◌, zeros, codes, hexes, ◌++◌}
use jtag_js.Devices.{DeviceDef, fill_b2, fill_b4, no_mk1_desc, no_mk2_desc, devfl_mkii_only}

abbrev pub atmega32u4 : DeviceDef
atmega32u4 = record {
  name = some (codes "atmega32u4");
  device_id = 0x9587;
  flash_page_size = 128;
  flash_page_count = 256;
  eeprom_page_size = 4;
  eeprom_page_count = 256;
  vectors_end = 43 * 4;
  device_flags = devfl_mkii_only;
  io_reg_defs = none;
  is_xmega = false;
  dev_desc1 = no_mk1_desc 0;
  dev_desc2 = record no_mk2_desc {
    uc_read_io = hexes "F8 FF E3 FB FF 3F BD F8";
    uc_write_io = hexes "B0 6D 03 E0 FF 1F BC F8";
    uc_read_ext_io = hexes "F3 CF 07 DF F7 3F F7 3F 00 00 1F FF FF B7 97 07 7F FF 1D" ++ zeros 33;
    uc_write_ext_io = hexes "F3 CF 07 D8 F7 3F F7 3F 00 00 1F EF 7F B6 97 05 0F 7F 11" ++ zeros 33;
    uc_idr_address = 0x31;
    uc_spmcr_address = 0x57;
    uc_rampz_address = 0x3B;
    ui_flash_page_size = fill_b2 128;
    uc_eeprom_page_size = 4;
    ul_boot_address = fill_b4 0x3F00;
    ui_upper_ext_io_loc = fill_b2 0x00FF;
    ul_flash_size = fill_b4 32768;
    uc_sph_addr = 0x3E;
    uc_spl_addr = 0x3D;
    ui_flashpages = fill_b2 (32768 / 128);
    enable_page_programming = 1;
    ui_sram_start_addr = fill_b2 0x100;
    uc_eind_address = 0x3C;
    eecr_address = fill_b2 0x1F;
  };
}

abbrev pub atmega406 : DeviceDef
atmega406 = record {
  name = some (codes "atmega406");
  device_id = 0x9507;
  flash_page_size = 128;
  flash_page_count = 320;
  eeprom_page_size = 4;
  eeprom_page_count = 128;
  vectors_end = 23 * 4;
  device_flags = devfl_mkii_only;
  io_reg_defs = none;
  is_xmega = false;
  dev_desc1 = no_mk1_desc 0;
  dev_desc2 = record no_mk2_desc {
    uc_read_io = hexes "3F 0F 60 F8 FF 0D B8 E0";
    uc_write_io = hexes "37 0F 00 E0 FF 0D B8 E0";
    uc_read_ext_io =
        hexes "55 DB 00 57 32 03 00 00 00 00 00 7F 01 00 03 00 FF 03 FF 01" ++ zeros 32;
    uc_write_ext_io = hexes "50 DB 00 50 32 03 00 00 00 00 00 6D 01 00 03 00 D0 00 FB" ++ zeros 33;
    uc_idr_address = 0x31;
    uc_spmcr_address = 0x57;
    ui_flash_page_size = fill_b2 128;
    uc_eeprom_page_size = 4;
    ul_boot_address = fill_b4 0x4F00;
    ui_upper_ext_io_loc = fill_b2 0xF8;
    ul_flash_size = fill_b4 40960;
    uc_sph_addr = 0x3E;
    uc_spl_addr = 0x3D;
    ui_flashpages = fill_b2 (40960 / 128);
    enable_page_programming = 1;
    ui_sram_start_addr = fill_b2 0x100;
    eecr_address = fill_b2 0x1F;
  };
}

abbrev pub atmega48p : DeviceDef
atmega48p = record {
  name = some (codes "atmega48p");
  device_id = 0x920A;
  flash_page_size = 64;
  flash_page_count = 64;
  eeprom_page_size = 4;
  eeprom_page_count = 64;
  vectors_end = 26 * 2;
  device_flags = devfl_mkii_only;
  io_reg_defs = none;
  is_xmega = false;
  dev_desc1 = no_mk1_desc 0;
  dev_desc2 = record no_mk2_desc {
    uc_read_io = hexes "F8 0F E0 F8 FB 3D B9 E0";
    uc_write_io = hexes "B0 0D 00 E0 FB 1D B8 E0";
    uc_read_ext_io = hexes "53 FB 01 DF F3 0F 00 00 00 00 5F 3F 37" ++ zeros 39;
    uc_write_ext_io = hexes "00 FB 01 D8 F3 0F 00 00 00 00 5F 2F 36" ++ zeros 39;
    ui_flash_page_size = fill_b2 64;
    uc_eeprom_page_size = 4;
    ui_upper_ext_io_loc = fill_b2 0xC6;
    ul_flash_size = fill_b4 4096;
    uc_eeprom_inst = hexes "BD F2 BD E1 BB CF B4 00 BE 01 B6 01 BC 00 BB BF 99 F9 BB AF";
    uc_flash_inst = 0xB6 ∷ 0x01 ∷ 0x11 ∷ [];
    uc_sph_addr = 0x3E;
    uc_spl_addr = 0x3D;
    ui_flashpages = fill_b2 (4096 / 64);
    uc_dwdr_address = 0x31;
    enable_page_programming = 1;
    ui_sram_start_addr = fill_b2 0x100;
    eecr_address = fill_b2 0x1F;
  };
}

abbrev pub atmega644p : DeviceDef
atmega644p = record {
  name = some (codes "atmega644p");
  device_id = 0x960A;
  flash_page_size = 256;
  flash_page_count = 256;
  eeprom_page_size = 8;
  eeprom_page_count = 256;
  vectors_end = 31 * 4;
  device_flags = devfl_mkii_only;
  io_reg_defs = none;
  is_xmega = false;
  dev_desc1 = no_mk1_desc 0;
  dev_desc2 = record no_mk2_desc {
    uc_read_io = hexes "FF 0F E0 F8 FF 3D B9 E8";
    uc_read_io_shadow = hexes "00 00 00 00 01" ++ zeros 3;
    uc_write_io = hexes "B6 0D 00 E0 FF 1D B8 E8";
    uc_write_io_shadow = hexes "00 00 00 00 01" ++ zeros 3;
    uc_read_ext_io = hexes "53 FB 09 DF F7 0F 00 00 00 00 5F 3F 37 37" ++ zeros 38;
    uc_write_ext_io = hexes "53 FB 09 D8 F7 0F 00 00 00 00 5F 2F 36 36" ++ zeros 38;
    uc_idr_address = 0x31;
    uc_spmcr_address = 0x57;
    uc_rampz_address = 0x3B;
    ui_flash_page_size = fill_b2 256;
    uc_eeprom_page_size = 8;
    ul_boot_address = fill_b4 0x7e00;
    ui_upper_ext_io_loc = fill_b2 0xCE;
    ul_flash_size = fill_b4 65536;
    uc_sph_addr = 0x3E;
    uc_spl_addr = 0x3D;
    ui_flashpages = fill_b2 (65536 / 256);
    enable_page_programming = 1;
    ui_sram_start_addr = fill_b2 0x100;
    eecr_address = fill_b2 0x1F;
  };
}
