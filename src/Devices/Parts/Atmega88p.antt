-- ===== src/Devices/Parts/Atmega88p.antt =====
-- src/devdescr.cc, the entries from atmega88p to attiny88. What is not listed of a description is 0.
use jtag_js.Base.{◌*◌, ◌/◌, true, false, none, some, [], ◌∷◌, zeros, codes, hexes, ◌++◌}
use jtag_js.Devices.{DeviceDef, fill_b2, fill_b4, no_mk1_desc, no_mk2_desc, devfl_mkii_only}

abbrev pub atmega88p : DeviceDef
atmega88p = record {
  name = some (codes "atmega88p");
  device_id = 0x930F;
  flash_page_size = 64;
  flash_page_count = 128;
  eeprom_page_size = 4;
  eeprom_page_count = 128;
  vectors_end = 26 * 2;
  device_flags = devfl_mkii_only;
  io_reg_defs = none;
  is_xmega = false;
  dev_desc1 = no_mk1_desc 0;
  dev_desc2 = record no_mk2_desc {
    uc_read_io = hexes "F8 0F E0 F8 FF 3D B9 E0";
    uc_write_io = hexes "B0 0D 00 E0 FF 1D B8 E0";
    uc_read_ext_io = hexes "53 FB 01 DF F7 0F 00 00 00 00 5F 3F 37" ++ zeros 39;
    uc_write_ext_io = hexes "00 FB 01 D8 F7 0F 00 00 00 00 5F 2F 36" ++ zeros 39;
    ui_flash_page_size = fill_b2 64;
    uc_eeprom_page_size = 4;
    ul_boot_address = fill_b4 0x0F80;
    ui_upper_ext_io_loc = fill_b2 0xC6;
    ul_flash_size = fill_b4 8192;
    uc_eeprom_inst = hexes "BD F2 BD E1 BB CF B4 00 BE 01 B6 01 BC 00 BB BF 99 F9 BB AF";
    uc_flash_inst = 0xB6 ∷ 0x01 ∷ 0x11 ∷ [];
    uc_sph_addr = 0x3E;
    uc_spl_addr = 0x3D;
    ui_flashpages = fill_b2 (8192 / 64);
    uc_dwdr_address = 0x31;
    ui_start_smallest_boot_loader_section = fill_b2 0xF80;
    enable_page_programming = 1;
    ui_sram_start_addr = fill_b2 0x100;
    eecr_address = fill_b2 0x1F;
  };
}

abbrev pub attiny167 : DeviceDef
attiny167 = record {
  name = some (codes "attiny167");
  device_id = 0x9487;
  flash_page_size = 128;
  flash_page_count = 128;
  eeprom_page_size = 4;
  eeprom_page_count = 128;
  vectors_end = 20 * 4;
  device_flags = devfl_mkii_only;
  io_reg_defs = none;
  is_xmega = false;
  dev_desc1 = no_mk1_desc 0;
  dev_desc2 = record no_mk2_desc {
    uc_read_io = hexes "3F 00 64 F8 EF 3D B9 E0";
    uc_write_io = hexes "36 00 04 E0 EF 1D B8 E0";
    uc_read_ext_io = hexes "5F DB 80 DF FF 0F 00 00 00 00 40 1F 00 FF 07" ++ zeros 37;
    uc_write_ext_io = hexes "1C DB 80 D8 FF 0F 00 00 00 00 40 15 00 F7 07" ++ zeros 37;
    uc_spmcr_address = 0x57;
    ui_flash_page_size = fill_b2 128;
    uc_eeprom_page_size = 4;
    ui_upper_ext_io_loc = fill_b2 0x00D2;
    ul_flash_size = fill_b4 16384;
    uc_eeprom_inst = hexes "BD F2 BD E1 BB CF B4 00 BE 01 B6 01 BC 00 BB BF 99 F9 BB AF";
    uc_flash_inst = 0xB6 ∷ 0x01 ∷ 0x11 ∷ [];
    uc_sph_addr = 0x3E;
    uc_spl_addr = 0x3D;
    ui_flashpages = fill_b2 (16384 / 128);
    uc_dwdr_address = 0x31;
    enable_page_programming = 1;
    ui_sram_start_addr = fill_b2 0x0100;
    eecr_address = fill_b2 0x1F;
  };
}

abbrev pub attiny43u : DeviceDef
attiny43u = record {
  name = some (codes "attiny43u");
  device_id = 0x920C;
  flash_page_size = 64;
  flash_page_count = 64;
  eeprom_page_size = 4;
  eeprom_page_count = 16;
  vectors_end = 16 * 2;
  device_flags = devfl_mkii_only;
  io_reg_defs = none;
  is_xmega = false;
  dev_desc1 = no_mk1_desc 0;
  dev_desc2 = record no_mk2_desc {
    uc_read_io = hexes "FB F9 FD 7F 4B F8 FF FF";
    uc_write_io = hexes "8B B0 BD 7D 09 F8 7D FA";
    uc_spmcr_address = 0x57;
    ui_flash_page_size = fill_b2 64;
    uc_eeprom_page_size = 4;
    ul_flash_size = fill_b4 4096;
    uc_eeprom_inst = hexes "BB FF BB EE BB CC B2 0D BC 07 B4 07 BA 0D BB BC 99 E1 BB AC";
    uc_flash_inst = 0xB4 ∷ 0x07 ∷ 0x17 ∷ [];
    uc_sph_addr = 0x3E;
    uc_spl_addr = 0x3D;
    ui_flashpages = fill_b2 (4096 / 64);
    uc_dwdr_address = 0x20;
    enable_page_programming = 1;
    ui_sram_start_addr = fill_b2 0x60;
    eecr_address = fill_b2 0x1C;
  };
}

abbrev pub attiny48 : DeviceDef
attiny48 = record {
  name = some (codes "attiny48");
  device_id = 0x9209;
  flash_page_size = 64;
  flash_page_count = 64;
  eeprom_page_size = 4;
  eeprom_page_count = 16;
  vectors_end = 20 * 2;
  device_flags = devfl_mkii_only;
  io_reg_defs = none;
  is_xmega = false;
  dev_desc1 = no_mk1_desc 0;
  dev_desc2 = record no_mk2_desc {
    uc_read_io = hexes "F8 7F 64 F8 EB 3D B9 A0";
    uc_write_io = hexes "B0 0D 00 E0 FB 1D B8 A0";
    uc_read_ext_io = hexes "53 FF 00 DF F7 0F 00 00 00 00 00 7F" ++ zeros 40;
    uc_write_ext_io = hexes "00 FF 00 DC F7 0F 00 00 00 00 00 7F" ++ zeros 40;
    ui_flash_page_size = fill_b2 64;
    uc_eeprom_page_size = 4;
    ui_upper_ext_io_loc = fill_b2 0xBD;
    ul_flash_size = fill_b4 4096;
    uc_eeprom_inst = hexes "BD F2 BD E1 BB CF B4 00 BE 01 B6 01 BC 00 BB BF 99 F9 BB AF";
    uc_flash_inst = 0xB6 ∷ 0x01 ∷ 0x11 ∷ [];
    uc_sph_addr = 0x3E;
    uc_spl_addr = 0x3D;
    ui_flashpages = fill_b2 (4096 / 64);
    uc_dwdr_address = 0x31;
    enable_page_programming = 1;
    ui_sram_start_addr = fill_b2 0x100;
    eecr_address = fill_b2 0x1F;
  };
}

abbrev pub attiny88 : DeviceDef
attiny88 = record {
  name = some (codes "attiny88");
  device_id = 0x9311;
  flash_page_size = 64;
  flash_page_count = 128;
  eeprom_page_size = 4;
  eeprom_page_count = 16;
  vectors_end = 20 * 2;
  device_flags = devfl_mkii_only;
  io_reg_defs = none;
  is_xmega = true;
  dev_desc1 = no_mk1_desc 0;
  dev_desc2 = record no_mk2_desc {
    uc_read_io = hexes "F8 7F 64 F8 EB 3D B9 A0";
    uc_write_io = hexes "B0 0D 00 E0 FB 1D B8 A0";
    uc_read_ext_io = hexes "53 FF 00 DF F7 0F 00 00 00 00 00 7F" ++ zeros 40;
    uc_write_ext_io = hexes "00 FF 00 DC F7 0F 00 00 00 00 00 7F" ++ zeros 40;
    ui_flash_page_size = fill_b2 64;
    uc_eeprom_page_size = 4;
    ui_upper_ext_io_loc = fill_b2 0xBD;
    ul_flash_size = fill_b4 8192;
    uc_eeprom_inst = hexes "BD F2 BD E1 BB CF B4 00 BE 01 B6 01 BC 00 BB BF 99 F9 BB AF";
    uc_flash_inst = 0xB6 ∷ 0x01 ∷ 0x11 ∷ [];
    uc_sph_addr = 0x3E;
    uc_spl_addr = 0x3D;
    ui_flashpages = fill_b2 (8192 / 64);
    uc_dwdr_address = 0x31;
    enable_page_programming = 1;
    ui_sram_start_addr = fill_b2 0x100;
    eecr_address = fill_b2 0x1F;
  };
}
