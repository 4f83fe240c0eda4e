-- ===== src/Devices/Parts/At90pwm3b.antt =====
-- src/devdescr.cc, the entries from at90pwm3b to attiny25. What is not listed of a description is 0.
use jtag_js.Base.{◌*◌, ◌/◌, false, none, some, [], ◌∷◌, zeros, codes, hexes, ◌++◌}
use jtag_js.Devices.{DeviceDef, fill_b2, fill_b4, no_mk1_desc, no_mk2_desc, devfl_mkii_only}

abbrev pub at90pwm3b : DeviceDef
at90pwm3b = record {
  name = some (codes "at90pwm3b");
  device_id = 0x9383;
  flash_page_size = 64;
  flash_page_count = 128;
  eeprom_page_size = 4;
  eeprom_page_count = 128;
  vectors_end = 32 * 2;
  device_flags = devfl_mkii_only;
  io_reg_defs = none;
  is_xmega = false;
  dev_desc1 = no_mk1_desc 0;
  dev_desc2 = record no_mk2_desc {
    uc_read_io = hexes "F8 7F 60 FE FF 33 BD E0";
    uc_write_io = hexes "F8 7F 40 EE FF 33 BC E0";
    uc_read_ext_io =
        hexes "53 C2 C0 DF F7 0F 00 00 3F E4 00 00 36 37 01 FC 05 FC 07 FC" ++ zeros 32;
    uc_write_ext_io =
        hexes "11 C2 C0 D8 F7 0F 00 00 3F E4 00 00 36 33 01 FC 05 FC 07 FC" ++ zeros 32;
    ui_flash_page_size = fill_b2 64;
    uc_eeprom_page_size = 4;
    ul_boot_address = fill_b4 0x0F80;
    ui_upper_ext_io_loc = fill_b2 0xFF;
    ul_flash_size = fill_b4 8192;
    uc_eeprom_inst = hexes "BD F2 BD E1 BB CF B4 00 BE 01 B6 01 BC 00 BB BF 99 F9 BB AF";
    uc_flash_inst = 0xB6 ∷ 0x01 ∷ 0x11 ∷ [];
    uc_sph_addr = 0x3E;
    uc_spl_addr = 0x3D;
    ui_flashpages = fill_b2 (8192 / 64);
    uc_dwdr_address = 0x31;
    ui_start_smallest_boot_loader_section = fill_b2 0xF80;
    enable_page_programming = 1;
    ui_sram_start_addr = fill_b2 0x0100;
    eecr_address = fill_b2 0x1F;
  };
}

abbrev pub attiny24 : DeviceDef
attiny24 = record {
  name = some (codes "attiny24");
  device_id = 0x910B;
  flash_page_size = 32;
  flash_page_count = 64;
  eeprom_page_size = 4;
  eeprom_page_count = 32;
  vectors_end = 17 * 2;
  device_flags = devfl_mkii_only;
  io_reg_defs = none;
  is_xmega = false;
  dev_desc1 = no_mk1_desc 0;
  dev_desc2 = record no_mk2_desc {
    uc_read_io = hexes "FB F9 FD FF 7F FF FF FF";
    uc_write_io = hexes "8B B0 FC FF 7D FF FD FA";
    ui_flash_page_size = fill_b2 32;
    uc_eeprom_page_size = 4;
    ul_flash_size = fill_b4 2048;
    uc_eeprom_inst = hexes "BB FF BB EE BB CC B2 0D BC 07 B4 07 BA 0D BB BC 99 E1 BB AC";
    uc_flash_inst = 0xB4 ∷ 0x07 ∷ 0x17 ∷ [];
    uc_sph_addr = 0x3E;
    uc_spl_addr = 0x3D;
    ui_flashpages = fill_b2 (2048 / 32);
    uc_dwdr_address = 0x27;
    enable_page_programming = 1;
    ui_sram_start_addr = fill_b2 0x60;
    eecr_address = fill_b2 0x1C;
  };
}

abbrev pub attiny44 : DeviceDef
attiny44 = record {
  name = some (codes "attiny44");
  device_id = 0x9207;
  flash_page_size = 64;
  flash_page_count = 64;
  eeprom_page_size = 4;
  eeprom_page_count = 64;
  vectors_end = 17 * 2;
  device_flags = devfl_mkii_only;
  io_reg_defs = none;
  is_xmega = false;
  dev_desc1 = no_mk1_desc 0;
  dev_desc2 = record no_mk2_desc {
    uc_read_io = hexes "FB F9 FD FF 7F FF FF FF";
    uc_write_io = hexes "8B B0 FC FF 7D FF FD FA";
    ui_flash_page_size = fill_b2 64;
    uc_eeprom_page_size = 4;
    ul_flash_size = fill_b4 4096;
    uc_eeprom_inst = hexes "BB FF BB EE BB CC B2 0D BC 07 B4 07 BA 0D BB BC 99 E1 BB AC";
    uc_flash_inst = 0xB4 ∷ 0x07 ∷ 0x17 ∷ [];
    uc_sph_addr = 0x3E;
    uc_spl_addr = 0x3D;
    ui_flashpages = fill_b2 (4096 / 64);
    uc_dwdr_address = 0x27;
    enable_page_programming = 1;
    ui_sram_start_addr = fill_b2 0x60;
    eecr_address = fill_b2 0x1C;
  };
}

abbrev pub attiny84 : DeviceDef
attiny84 = record {
  name = some (codes "attiny84");
  device_id = 0x930C;
  flash_page_size = 64;
  flash_page_count = 128;
  eeprom_page_size = 4;
  eeprom_page_count = 128;
  vectors_end = 17 * 2;
  device_flags = devfl_mkii_only;
  io_reg_defs = none;
  is_xmega = false;
  dev_desc1 = no_mk1_desc 0;
  dev_desc2 = record no_mk2_desc {
    uc_read_io = hexes "FB F9 FD FF 7F FF FF FF";
    uc_write_io = hexes "8B B0 FC FF 7D FF FD FA";
    ui_flash_page_size = fill_b2 64;
    uc_eeprom_page_size = 4;
    ul_flash_size = fill_b4 8192;
    uc_eeprom_inst = hexes "BB FF BB EE BB CC B2 0D BC 07 B4 07 BA 0D BB BC 99 E1 BB AC";
    uc_flash_inst = 0xB4 ∷ 0x07 ∷ 0x17 ∷ [];
    uc_sph_addr = 0x3E;
    uc_spl_addr = 0x3D;
    ui_flashpages = fill_b2 (8192 / 64);
    uc_dwdr_address = 0x27;
    enable_page_programming = 1;
    ui_sram_start_addr = fill_b2 0x60;
    eecr_address = fill_b2 0x1C;
  };
}

abbrev pub attiny25 : DeviceDef
attiny25 = record {
  name = some (codes "attiny25");
  device_id = 0x9108;
  flash_page_size = 32;
  flash_page_count = 64;
  eeprom_page_size = 4;
  eeprom_page_count = 32;
  vectors_end = 15 * 2;
  device_flags = devfl_mkii_only;
  io_reg_defs = none;
  is_xmega = false;
  dev_desc1 = no_mk1_desc 0;
  dev_desc2 = record no_mk2_desc {
    uc_read_io = hexes "F8 E1 FF F1 FB FF BF AF";
    uc_write_io = hexes "C8 E1 FF 71 BB 7F AD AB";
    ui_flash_page_size = fill_b2 32;
    uc_eeprom_page_size = 4;
    ul_flash_size = fill_b4 2048;
    uc_eeprom_inst = hexes "BB FF BB EE BB CC B2 0D BC 02 B4 02 BA 0D BB BC 99 E1 BB AC";
    uc_flash_inst = 0xB4 ∷ 0x02 ∷ 0x12 ∷ [];
    uc_sph_addr = 0x3E;
    uc_spl_addr = 0x3D;
    ui_flashpages = fill_b2 (2048 / 32);
    uc_dwdr_address = 0x22;
    enable_page_programming = 1;
    ui_sram_start_addr = fill_b2 0x60;
    eecr_address = fill_b2 0x1C;
  };
}
