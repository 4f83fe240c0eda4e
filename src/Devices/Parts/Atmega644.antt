-- ===== src/Devices/Parts/Atmega644.antt =====
-- src/devdescr.cc, the entries from atmega644 to atmega6450. What is not listed of a description is 0.
use jtag_js.Base.{◌*◌, ◌/◌, false, none, some, [], ◌∷◌, zeros, codes, hexes, ◌++◌}
use jtag_js.Devices.{DeviceDef, fill_b2, fill_b4, no_mk1_desc, no_mk2_desc, devfl_mkii_only}

abbrev pub atmega644 : DeviceDef
atmega644 = record {
  name = some (codes "atmega644");
  device_id = 0x9609;
  flash_page_size = 256;
  flash_page_count = 256;
  eeprom_page_size = 8;
  eeprom_page_count = 256;
  vectors_end = 28 * 4;
  device_flags = devfl_mkii_only;
  io_reg_defs = none;
  is_xmega = false;
  dev_desc1 = no_mk1_desc 0;
  dev_desc2 = record no_mk2_desc {
    uc_read_io = hexes "FF 0F E0 F8 FF 3D B9 E8";
    uc_write_io = hexes "B6 0D 00 E0 FF 1D B8 E8";
    uc_read_ext_io = hexes "53 FB 09 DF F7 0F 00 00 00 00 5F 3F 37" ++ zeros 39;
    uc_write_ext_io = hexes "53 FB 09 D8 F7 0F 00 00 00 00 5F 2F 36" ++ zeros 39;
    uc_idr_address = 0x31;
    uc_spmcr_address = 0x57;
    ui_flash_page_size = fill_b2 256;
    uc_eeprom_page_size = 8;
    ul_boot_address = fill_b4 0x7E00;
    ui_upper_ext_io_loc = fill_b2 0xC6;
    ul_flash_size = fill_b4 0x10000;
    uc_sph_addr = 0x3e;
    uc_spl_addr = 0x3d;
    ui_flashpages = fill_b2 (0x10000 / 256);
    enable_page_programming = 1;
    ui_sram_start_addr = fill_b2 0x100;
    eecr_address = fill_b2 0x1f;
  };
}

abbrev pub atmega325 : DeviceDef
atmega325 = record {
  name = some (codes "atmega325");
  device_id = 0x9505;
  flash_page_size = 128;
  flash_page_count = 256;
  eeprom_page_size = 4;
  eeprom_page_count = 256;
  vectors_end = 22 * 4;
  device_flags = devfl_mkii_only;
  io_reg_defs = none;
  is_xmega = false;
  dev_desc1 = no_mk1_desc 0;
  dev_desc2 = record no_mk2_desc {
    uc_read_io = hexes "FF FF FF F0 DF 3C B9 E0";
    uc_write_io = hexes "B6 6D 1B E0 DF 1C B8 E0";
    uc_read_ext_io = hexes "53 DA 01 DF F7 0F 00 00 00 00 4D 07 37" ++ zeros 39;
    uc_write_ext_io = hexes "53 DA 01 D8 F7 0F 00 00 00 00 4D 05 36" ++ zeros 39;
    uc_idr_address = 0x31;
    uc_spmcr_address = 0x57;
    ui_flash_page_size = fill_b2 128;
    uc_eeprom_page_size = 4;
    ul_boot_address = fill_b4 0x3F00;
    ui_upper_ext_io_loc = fill_b2 0xC6;
    ul_flash_size = fill_b4 32768;
    uc_sph_addr = 0x3E;
    uc_spl_addr = 0x3D;
    ui_flashpages = fill_b2 (32768 / 128);
    uc_dw_base_pc = 0x40;
    enable_page_programming = 1;
    ui_sram_start_addr = fill_b2 0x100;
    uc_pc_mask_high = 0x40;
    eecr_address = 0x1F ∷ 0 ∷ [];
  };
}

abbrev pub atmega3250 : DeviceDef
atmega3250 = record {
  name = some (codes "atmega3250");
  device_id = 0x9506;
  flash_page_size = 128;
  flash_page_count = 256;
  eeprom_page_size = 4;
  eeprom_page_count = 256;
  vectors_end = 25 * 4;
  device_flags = devfl_mkii_only;
  io_reg_defs = none;
  is_xmega = false;
  dev_desc1 = no_mk1_desc 0;
  dev_desc2 = record no_mk2_desc {
    uc_read_io = hexes "FF FF FF F0 DF 3C B9 E0";
    uc_write_io = hexes "B6 6D 1B E0 DF 1C B8 E0";
    uc_read_ext_io = hexes "53 FA 09 DF F7 0F 00 00 00 00 4D 07 37 00 00 3F" ++ zeros 36;
    uc_write_ext_io = hexes "53 FA 09 D8 F7 0F 00 00 00 00 4D 05 36 00 00 3F" ++ zeros 36;
    uc_idr_address = 0x31;
    uc_spmcr_address = 0x57;
    ui_flash_page_size = fill_b2 128;
    uc_eeprom_page_size = 4;
    ul_boot_address = fill_b4 0x3F00;
    ui_upper_ext_io_loc = fill_b2 0xDD;
    ul_flash_size = fill_b4 32768;
    uc_sph_addr = 0x3E;
    uc_spl_addr = 0x3D;
    ui_flashpages = fill_b2 (32768 / 128);
    uc_dw_base_pc = 0x40;
    enable_page_programming = 1;
    ui_sram_start_addr = fill_b2 0x100;
    uc_pc_mask_high = 0x40;
    eecr_address = 0x1F ∷ 0 ∷ [];
  };
}

abbrev pub atmega645 : DeviceDef
atmega645 = record {
  name = some (codes "atmega645");
  device_id = 0x9605;
  flash_page_size = 256;
  flash_page_count = 256;
  eeprom_page_size = 8;
  eeprom_page_count = 256;
  vectors_end = 22 * 4;
  device_flags = devfl_mkii_only;
  io_reg_defs = none;
  is_xmega = false;
  dev_desc1 = no_mk1_desc 0;
  dev_desc2 = record no_mk2_desc {
    uc_read_io = hexes "FF FF FF F0 DF 3C B9 E0";
    uc_write_io = hexes "B6 6D 1B E0 DF 1C B8 E0";
    uc_read_ext_io = hexes "53 DA 01 DF F7 0F 00 00 00 00 4D 07 37" ++ zeros 39;
    uc_write_ext_io = hexes "53 DA 01 D8 F7 0F 00 00 00 00 4D 05 36" ++ zeros 39;
    uc_idr_address = 0x31;
    uc_spmcr_address = 0x57;
    ui_flash_page_size = fill_b2 256;
    uc_eeprom_page_size = 8;
    ul_boot_address = fill_b4 0x7E00;
    ui_upper_ext_io_loc = fill_b2 0xC6;
    ul_flash_size = fill_b4 65536;
    uc_sph_addr = 0x3E;
    uc_spl_addr = 0x3D;
    ui_flashpages = fill_b2 (65536 / 256);
    uc_dw_base_pc = 0x40;
    enable_page_programming = 1;
    ui_sram_start_addr = fill_b2 0x100;
    eecr_address = 0x1F ∷ 0 ∷ [];
  };
}

abbrev pub atmega6450 : DeviceDef
atmega6450 = record {
  name = some (codes "atmega6450");
  device_id = 0x9606;
  flash_page_size = 256;
  flash_page_count = 256;
  eeprom_page_size = 8;
  eeprom_page_count = 256;
  vectors_end = 25 * 4;
  device_flags = devfl_mkii_only;
  io_reg_defs = none;
  is_xmega = false;
  dev_desc1 = no_mk1_desc 0;
  dev_desc2 = record no_mk2_desc {
    uc_read_io = hexes "FF FF FF F0 DF 3C B9 E0";
    uc_write_io = hexes "B6 6D 1B E0 DF 1C B8 E0";
    uc_read_ext_io = hexes "53 FA 09 DF F7 0F 00 00 00 00 4D 07 37 00 00 3F" ++ zeros 36;
    uc_write_ext_io = hexes "53 FA 09 D8 F7 0F 00 00 00 00 4D 05 36 00 00 3F" ++ zeros 36;
    uc_idr_address = 0x31;
    uc_spmcr_address = 0x57;
    ui_flash_page_size = fill_b2 256;
    uc_eeprom_page_size = 8;
    ul_boot_address = fill_b4 0x7E00;
    ui_upper_ext_io_loc = fill_b2 0xDD;
    ul_flash_size = fill_b4 65536;
    uc_sph_addr = 0x3E;
    uc_spl_addr = 0x3D;
    ui_flashpages = fill_b2 (65536 / 256);
    uc_dw_base_pc = 0x40;
    enable_page_programming = 1;
    ui_sram_start_addr = fill_b2 0x100;
    eecr_address = 0x1F ∷ 0 ∷ [];
  };
}
