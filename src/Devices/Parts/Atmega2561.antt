-- ===== src/Devices/Parts/Atmega2561.antt =====
-- src/devdescr.cc, the entries from atmega2561 to attiny13. What is not listed of a description is 0.
use jtag_js.Base.{◌*◌, ◌/◌, false, none, some, [], ◌∷◌, zeros, codes, hexes, ◌++◌}
use jtag_js.Devices.Registers.Atmega128.{atmega128_io_registers}
use jtag_js.Devices.{DeviceDef, fill_b2, fill_b4, no_mk1_desc, no_mk2_desc, devfl_mkii_only}

abbrev pub atmega2561 : DeviceDef
atmega2561 = record {
  name = some (codes "atmega2561");
  device_id = 0x9802;
  flash_page_size = 256;
  flash_page_count = 1024;
  eeprom_page_size = 8;
  eeprom_page_count = 512;
  vectors_end = 0xe4;
  device_flags = devfl_mkii_only;
  io_reg_defs = some atmega128_io_registers;
  is_xmega = false;
  dev_desc1 = no_mk1_desc 0;
  dev_desc2 = record no_mk2_desc {
    uc_read_io = hexes "FF FF FF FF FF 3D B9 F8";
    uc_write_io = hexes "FF FF 1F E0 FF 1D A9 F8";
    uc_read_ext_io =
        hexes "73 FF 3F FF F7 3F F7 3F F7 3F 5F 3F 37 37 37 00 00 00 00 00 FF 0F 00 00 F7 3F 37"
        ++ zeros 25;
    uc_write_ext_io =
        hexes "73 FF 3F F8 F7 3F F7 3F F7 3F 5F 2F 36 36 36 00 00 00 00 00 FF 0F 00 00 F7 3F 36"
        ++ zeros 25;
    uc_idr_address = 0x31;
    uc_spmcr_address = 0x57;
    uc_rampz_address = 0x3B;
    ui_flash_page_size = fill_b2 256;
    uc_eeprom_page_size = 8;
    ul_boot_address = fill_b4 0x1FE00;
    ui_upper_ext_io_loc = fill_b2 0x0136;
    ul_flash_size = fill_b4 0x40000;
    uc_sph_addr = 0x3e;
    uc_spl_addr = 0x3d;
    ui_flashpages = fill_b2 (0x40000 / 256);
    enable_page_programming = 1;
    ui_sram_start_addr = fill_b2 0x200;
    uc_eind_address = 0x3c;
    eecr_address = fill_b2 0x1F;
  };
}

abbrev pub atmega48 : DeviceDef
atmega48 = record {
  name = some (codes "atmega48");
  device_id = 0x9205;
  flash_page_size = 64;
  flash_page_count = 64;
  eeprom_page_size = 4;
  eeprom_page_count = 64;
  vectors_end = 26 * 2;
  device_flags = devfl_mkii_only;
  io_reg_defs = none;
  is_xmega = false;
  dev_desc1 = no_mk1_desc 0;
  dev_desc2 = record no_mk2_desc {
    uc_read_io = hexes "F8 0F E0 F8 FB 3D B9 E0";
    uc_write_io = hexes "B0 0D 00 E0 FB 1D B8 E0";
    uc_read_ext_io = hexes "53 FB 01 DF F3 0F 00 00 00 00 5F 3F 37" ++ zeros 39;
    uc_write_ext_io = hexes "10 FB 01 D8 F3 0F 00 00 00 00 5F 2F 36" ++ zeros 39;
    ui_flash_page_size = fill_b2 64;
    uc_eeprom_page_size = 4;
    ui_upper_ext_io_loc = fill_b2 0xC6;
    ul_flash_size = fill_b4 0x1000;
    uc_eeprom_inst = hexes "BD F2 BD E1 BB CF B4 00 BE 01 B6 01 BC 00 BB BF 99 F9 BB AF";
    uc_flash_inst = 0xB6 ∷ 0x01 ∷ 0x11 ∷ [];
    uc_sph_addr = 0x3e;
    uc_spl_addr = 0x3d;
    ui_flashpages = fill_b2 (0x1000 / 64);
    uc_dwdr_address = 0x31;
    uc_dw_base_pc = 0x18;
    enable_page_programming = 1;
    ui_sram_start_addr = fill_b2 0x100;
    eecr_address = fill_b2 0x1F;
  };
}

abbrev pub atmega88 : DeviceDef
atmega88 = record {
  name = some (codes "atmega88");
  device_id = 0x930A;
  flash_page_size = 64;
  flash_page_count = 128;
  eeprom_page_size = 4;
  eeprom_page_count = 128;
  vectors_end = 26 * 2;
  device_flags = devfl_mkii_only;
  io_reg_defs = none;
  is_xmega = false;
  dev_desc1 = no_mk1_desc 0;
  dev_desc2 = record no_mk2_desc {
    uc_read_io = hexes "F8 0F E0 F8 FF 3D B9 E0";
    uc_write_io = hexes "B0 0D 00 E0 FF 1D B8 E0";
    uc_read_ext_io = hexes "53 FB 01 DF F7 0F 00 00 00 00 5F 3F 37" ++ zeros 39;
    uc_write_ext_io = hexes "10 FB 01 D8 F7 0F 00 00 00 00 5F 2F 36" ++ zeros 39;
    ui_flash_page_size = fill_b2 64;
    uc_eeprom_page_size = 4;
    ul_boot_address = fill_b4 0x0F80;
    ui_upper_ext_io_loc = fill_b2 0xC6;
    ul_flash_size = fill_b4 8192;
    uc_eeprom_inst = hexes "BD F2 BD E1 BB CF B4 00 BE 01 B6 01 BC 00 BB BF 99 F9 BB AF";
    uc_flash_inst = 0xB6 ∷ 0x01 ∷ 0x11 ∷ [];
    uc_sph_addr = 0x3E;
    uc_spl_addr = 0x3D;
    ui_flashpages = fill_b2 (8192 / 64);
    uc_dwdr_address = 0x31;
    uc_dw_base_pc = 0x10;
    ui_start_smallest_boot_loader_section = fill_b2 0xF80;
    enable_page_programming = 1;
    ui_sram_start_addr = fill_b2 0x100;
    eecr_address = fill_b2 0x1F;
  };
}

abbrev pub atmega168 : DeviceDef
atmega168 = record {
  name = some (codes "atmega168");
  device_id = 0x9406;
  flash_page_size = 128;
  flash_page_count = 128;
  eeprom_page_size = 4;
  eeprom_page_count = 128;
  vectors_end = 26 * 4;
  device_flags = devfl_mkii_only;
  io_reg_defs = none;
  is_xmega = false;
  dev_desc1 = no_mk1_desc 0;
  dev_desc2 = record no_mk2_desc {
    uc_read_io = hexes "F8 0F E0 F8 FF 3D B9 E0";
    uc_write_io = hexes "B0 0D 00 E0 FF 1D B8 E0";
    uc_read_ext_io = hexes "53 FB 01 DF F7 0F 00 00 00 00 5F 3F 37" ++ zeros 39;
    uc_write_ext_io = hexes "10 FB 01 D8 F7 0F 00 00 00 00 5F 2F 36" ++ zeros 39;
    ui_flash_page_size = fill_b2 128;
    uc_eeprom_page_size = 4;
    ul_boot_address = fill_b4 0x1F80;
    ui_upper_ext_io_loc = fill_b2 0xC6;
    ul_flash_size = fill_b4 16384;
    uc_eeprom_inst = hexes "BD F2 BD E1 BB CF B4 00 BE 01 B6 01 BC 00 BB BF 99 F9 BB AF";
    uc_flash_inst = 0xB6 ∷ 0x01 ∷ 0x11 ∷ [];
    uc_sph_addr = 0x3E;
    uc_spl_addr = 0x3D;
    ui_flashpages = fill_b2 (16384 / 128);
    uc_dwdr_address = 0x31;
    ui_start_smallest_boot_loader_section = fill_b2 0x1F80;
    enable_page_programming = 1;
    ui_sram_start_addr = fill_b2 0x100;
    eecr_address = fill_b2 0x1F;
  };
}

abbrev pub attiny13 : DeviceDef
attiny13 = record {
  name = some (codes "attiny13");
  device_id = 0x9007;
  flash_page_size = 32;
  flash_page_count = 32;
  eeprom_page_size = 1;
  eeprom_page_count = 64;
  vectors_end = 10 * 2;
  device_flags = devfl_mkii_only;
  io_reg_defs = none;
  is_xmega = false;
  dev_desc1 = no_mk1_desc 0;
  dev_desc2 = record no_mk2_desc {
    uc_read_io = hexes "F8 01 F0 71 42 83 FE AF";
    uc_write_io = hexes "88 00 B0 71 00 83 7C AA";
    ui_flash_page_size = fill_b2 32;
    uc_eeprom_page_size = 1;
    ul_flash_size = fill_b4 1024;
    uc_eeprom_inst = hexes "BB FE BB EE BB CC B2 0D BC 0E B4 0E BA 0D BB BC 99 E1 BB AC";
    uc_flash_inst = 0xB4 ∷ 0x0E ∷ 0x1E ∷ [];
    uc_spl_addr = 0x3D;
    ui_flashpages = fill_b2 (1024 / 32);
    uc_dwdr_address = 0x2E;
    enable_page_programming = 1;
    ui_sram_start_addr = fill_b2 0x60;
    eecr_address = fill_b2 0x1C;
  };
}
