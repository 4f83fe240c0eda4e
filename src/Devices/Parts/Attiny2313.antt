-- ===== src/Devices/Parts/Attiny2313.antt =====
-- src/devdescr.cc, the entries from attiny2313 to at90pwm2b. What is not listed of a description is 0.
use jtag_js.Base.{◌*◌, ◌/◌, false, none, some, [], ◌∷◌, zeros, codes, hexes, ◌++◌}
use jtag_js.Devices.{DeviceDef, fill_b2, fill_b4, no_mk1_desc, no_mk2_desc, devfl_mkii_only}

abbrev pub attiny2313 : DeviceDef
attiny2313 = record {
  name = some (codes "attiny2313");
  device_id = 0x910A;
  flash_page_size = 32;
  flash_page_count = 64;
  eeprom_page_size = 4;
  eeprom_page_count = 32;
  vectors_end = 19 * 2;
  device_flags = devfl_mkii_only;
  io_reg_defs = none;
  is_xmega = false;
  dev_desc1 = no_mk1_desc 0;
  dev_desc2 = record no_mk2_desc {
    uc_read_io = hexes "0E EF FF 7F 3F FF 7F BF";
    uc_write_io = hexes "0E A6 BE 7D 39 FF 7D BA";
    ui_flash_page_size = fill_b2 32;
    uc_eeprom_page_size = 4;
    ul_flash_size = fill_b4 2048;
    uc_eeprom_inst = hexes "BB FE BB EE BB CC B2 0D BA 0F B2 0F BA 0D BB BC 99 E1 BB AC";
    uc_flash_inst = 0xB2 ∷ 0x0F ∷ 0x1F ∷ [];
    uc_spl_addr = 0x3D;
    ui_flashpages = fill_b2 (2048 / 32);
    uc_dwdr_address = 0x1F;
    enable_page_programming = 1;
    ui_sram_start_addr = fill_b2 0x60;
    eecr_address = fill_b2 0x1C;
  };
}

abbrev pub at90pwm2 : DeviceDef
at90pwm2 = record {
  name = some (codes "at90pwm2");
  device_id = 0x9381;
  flash_page_size = 64;
  flash_page_count = 128;
  eeprom_page_size = 4;
  eeprom_page_count = 128;
  vectors_end = 32 * 2;
  device_flags = devfl_mkii_only;
  io_reg_defs = none;
  is_xmega = false;
  dev_desc1 = no_mk1_desc 0;
  dev_desc2 = record no_mk2_desc {
    uc_read_io = hexes "F8 7F 60 FE FF 33 BD E0";
    uc_write_io = hexes "F8 7F 40 EE FF 33 BC E0";
    uc_read_ext_io =
        hexes "53 C2 C0 DF F7 0F 00 00 3F E4 00 00 36 37 01 FC 05 FC 07 FC" ++ zeros 32;
    uc_write_ext_io =
        hexes "11 C2 C0 D8 F7 0F 00 00 3F E4 00 00 36 33 01 FC 05 FC 07 FC" ++ zeros 32;
    ui_flash_page_size = fill_b2 64;
    uc_eeprom_page_size = 4;
    ul_boot_address = fill_b4 0x0F80;
    ui_upper_ext_io_loc = fill_b2 0xFF;
    ul_flash_size = fill_b4 8192;
    uc_eeprom_inst = hexes "BD F2 BD E1 BB CF B4 00 BE 01 B6 01 BC 00 BB BF 99 F9 BB AF";
    uc_flash_inst = 0xB6 ∷ 0x01 ∷ 0x11 ∷ [];
    uc_sph_addr = 0x3E;
    uc_spl_addr = 0x3D;
    ui_flashpages = fill_b2 (8192 / 64);
    uc_dwdr_address = 0x31;
    ui_start_smallest_boot_loader_section = fill_b2 0xF80;
    enable_page_programming = 1;
    ui_sram_start_addr = fill_b2 0x0100;
    eecr_address = fill_b2 0x1F;
  };
}

abbrev pub at90pwm3 : DeviceDef
at90pwm3 = record {
  name = some (codes "at90pwm3");
  device_id = 0x9381;
  flash_page_size = 64;
  flash_page_count = 128;
  eeprom_page_size = 4;
  eeprom_page_count = 128;
  vectors_end = 32 * 2;
  device_flags = devfl_mkii_only;
  io_reg_defs = none;
  is_xmega = false;
  dev_desc1 = no_mk1_desc 0;
  dev_desc2 = record no_mk2_desc {
    uc_read_io = hexes "F8 7F 60 FE FF 33 BD E0";
    uc_write_io = hexes "F8 7F 40 EE FF 33 BC E0";
    uc_read_ext_io =
        hexes "53 C2 C0 DF F7 0F 00 00 3F E4 00 00 36 37 01 FC 05 FC 07 FC" ++ zeros 32;
    uc_write_ext_io =
        hexes "11 C2 C0 D8 F7 0F 00 00 3F E4 00 00 36 33 01 FC 05 FC 07 FC" ++ zeros 32;
    ui_flash_page_size = fill_b2 64;
    uc_eeprom_page_size = 4;
    ul_boot_address = fill_b4 0x0F80;
    ui_upper_ext_io_loc = fill_b2 0xFF;
    ul_flash_size = fill_b4 8192;
    uc_eeprom_inst = hexes "BD F2 BD E1 BB CF B4 00 BE 01 B6 01 BC 00 BB BF 99 F9 BB AF";
    uc_flash_inst = 0xB6 ∷ 0x01 ∷ 0x11 ∷ [];
    uc_sph_addr = 0x3E;
    uc_spl_addr = 0x3D;
    ui_flashpages = fill_b2 (8192 / 64);
    uc_dwdr_address = 0x31;
    ui_start_smallest_boot_loader_section = fill_b2 0xF80;
    enable_page_programming = 1;
    ui_sram_start_addr = fill_b2 0x0100;
    eecr_address = fill_b2 0x1F;
  };
}

abbrev pub at90pwm2b : DeviceDef
at90pwm2b = record {
  name = some (codes "at90pwm2b");
  device_id = 0x9383;
  flash_page_size = 64;
  flash_page_count = 128;
  eeprom_page_size = 4;
  eeprom_page_count = 128;
  vectors_end = 32 * 2;
  device_flags = devfl_mkii_only;
  io_reg_defs = none;
  is_xmega = false;
  dev_desc1 = no_mk1_desc 0;
  dev_desc2 = record no_mk2_desc {
    uc_read_io = hexes "F8 7F 60 FE FF 33 BD E0";
    uc_write_io = hexes "F8 7F 40 EE FF 33 BC E0";
    uc_read_ext_io =
        hexes "53 C2 C0 DF F7 0F 00 00 3F E4 00 00 36 37 01 FC 05 FC 07 FC" ++ zeros 32;
    uc_write_ext_io =
        hexes "11 C2 C0 D8 F7 0F 00 00 3F E4 00 00 36 33 01 FC 05 FC 07 FC" ++ zeros 32;
    ui_flash_page_size = fill_b2 64;
    uc_eeprom_page_size = 4;
    ul_boot_address = fill_b4 0x0F80;
    ui_upper_ext_io_loc = fill_b2 0xFF;
    ul_flash_size = fill_b4 8192;
    uc_eeprom_inst = hexes "BD F2 BD E1 BB CF B4 00 BE 01 B6 01 BC 00 BB BF 99 F9 BB AF";
    uc_flash_inst = 0xB6 ∷ 0x01 ∷ 0x11 ∷ [];
    uc_sph_addr = 0x3E;
    uc_spl_addr = 0x3D;
    ui_flashpages = fill_b2 (8192 / 64);
    uc_dwdr_address = 0x31;
    ui_start_smallest_boot_loader_section = fill_b2 0xF80;
    enable_page_programming = 1;
    ui_sram_start_addr = fill_b2 0x0100;
    eecr_address = fill_b2 0x1F;
  };
}
