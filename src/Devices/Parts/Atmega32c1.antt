-- ===== src/Devices/Parts/Atmega32c1.antt =====
-- src/devdescr.cc, the entries from atmega32c1 to at90can64. What is not listed of a description is 0.
use jtag_js.Base.{◌*◌, ◌/◌, false, none, some, [], ◌∷◌, zeros, codes, hexes, ◌++◌}
use jtag_js.Devices.{DeviceDef, fill_b2, fill_b4, no_mk1_desc, no_mk2_desc, devfl_mkii_only}

abbrev pub atmega32c1 : DeviceDef
atmega32c1 = record {
  name = some (codes "atmega32c1");
  device_id = 0x9586;
  flash_page_size = 128;
  flash_page_count = 256;
  eeprom_page_size = 4;
  eeprom_page_count = 256;
  vectors_end = 31 * 4;
  device_flags = devfl_mkii_only;
  io_reg_defs = none;
  is_xmega = false;
  dev_desc1 = no_mk1_desc 0;
  dev_desc2 = record no_mk2_desc {
    uc_read_io = hexes "F8 7F 60 F6 FF 33 B9 E0";
    uc_write_io = hexes "B0 6D 00 E6 FF 13 B8 E0";
    uc_read_ext_io = hexes "53 C2 E0 DF F7 0F F7 00 FF FF FF 1F 00 FF 07 5F 1D F0 FF" ++ zeros 33;
    uc_write_ext_io = hexes "10 C2 E0 D8 F7 0F F7 00 FF FF FF 1F 00 F7 07 4D 1C F0 FF" ++ zeros 33;
    uc_spmcr_address = 0x57;
    ui_flash_page_size = fill_b2 128;
    uc_eeprom_page_size = 4;
    ul_boot_address = fill_b4 0x3F00;
    ui_upper_ext_io_loc = fill_b2 0x00FA;
    ul_flash_size = fill_b4 32768;
    uc_eeprom_inst = hexes "BD F2 BD E1 BB CF B4 00 BE 01 B6 01 BC 00 BB BF 99 F9 BB AF";
    uc_flash_inst = 0xB6 ∷ 0x01 ∷ 0x11 ∷ [];
    uc_sph_addr = 0x3E;
    uc_spl_addr = 0x3D;
    ui_flashpages = fill_b2 (32768 / 128);
    uc_dwdr_address = 0x31;
    ui_start_smallest_boot_loader_section = fill_b2 0x3F00;
    enable_page_programming = 1;
    ui_sram_start_addr = fill_b2 0x0100;
    eecr_address = fill_b2 0x1F;
  };
}

abbrev pub atmega32m1 : DeviceDef
atmega32m1 = record {
  name = some (codes "atmega32m1");
  device_id = 0x9584;
  flash_page_size = 128;
  flash_page_count = 256;
  eeprom_page_size = 4;
  eeprom_page_count = 256;
  vectors_end = 31 * 4;
  device_flags = devfl_mkii_only;
  io_reg_defs = none;
  is_xmega = false;
  dev_desc1 = no_mk1_desc 0;
  dev_desc2 = record no_mk2_desc {
    uc_read_io = hexes "F8 7F 60 F6 FF 33 B9 E0";
    uc_write_io = hexes "B0 6D 00 E6 FF 13 B8 E0";
    uc_read_ext_io = hexes "53 C2 E0 DF F7 0F F7 00 FF FF FF 1F 00 FF 07 5F 1D F0 FF" ++ zeros 33;
    uc_write_ext_io = hexes "10 C2 E0 D8 F7 0F F7 00 FF FF FF 1F 00 F7 07 4D 1C F0 FF" ++ zeros 33;
    uc_spmcr_address = 0x57;
    ui_flash_page_size = fill_b2 128;
    uc_eeprom_page_size = 4;
    ul_boot_address = fill_b4 0x3F00;
    ui_upper_ext_io_loc = fill_b2 0x00FA;
    ul_flash_size = fill_b4 32768;
    uc_eeprom_inst = hexes "BD F2 BD E1 BB CF B4 00 BE 01 B6 01 BC 00 BB BF 99 F9 BB AF";
    uc_flash_inst = 0xB6 ∷ 0x01 ∷ 0x11 ∷ [];
    uc_sph_addr = 0x3E;
    uc_spl_addr = 0x3D;
    ui_flashpages = fill_b2 (32768 / 128);
    uc_dwdr_address = 0x31;
    ui_start_smallest_boot_loader_section = fill_b2 0x3F00;
    enable_page_programming = 1;
    ui_sram_start_addr = fill_b2 0x0100;
    eecr_address = fill_b2 0x1F;
  };
}

abbrev pub at90can32 : DeviceDef
at90can32 = record {
  name = some (codes "at90can32");
  device_id = 0x9581;
  flash_page_size = 256;
  flash_page_count = 128;
  eeprom_page_size = 8;
  eeprom_page_count = 128;
  vectors_end = 37 * 4;
  device_flags = devfl_mkii_only;
  io_reg_defs = none;
  is_xmega = false;
  dev_desc1 = no_mk1_desc 0;
  dev_desc2 = record no_mk2_desc {
    uc_read_io = hexes "FF FF FF F1 DF 3C B9 E8";
    uc_write_io = hexes "B6 6D 1B E0 DF 1C B8 E8";
    uc_read_ext_io =
        hexes "43 C6 33 DF F7 3F F7 3F 00 00 4D 1F 37 37 00 FF FF FF FF 07" ++ zeros 32;
    uc_write_ext_io =
        hexes "43 C6 33 D8 F7 3F F7 3F 00 00 4D 0F 36 36 00 C9 3C F0 FF 04" ++ zeros 32;
    uc_idr_address = 0x31;
    uc_spmcr_address = 0x57;
    uc_rampz_address = 0x3B;
    ui_flash_page_size = fill_b2 256;
    uc_eeprom_page_size = 8;
    ul_boot_address = fill_b4 0x3E00;
    ui_upper_ext_io_loc = fill_b2 0xFA;
    ul_flash_size = fill_b4 32768;
    uc_sph_addr = 0x3E;
    uc_spl_addr = 0x3D;
    ui_flashpages = fill_b2 (32768 / 256);
    enable_page_programming = 1;
    uc_cache_type = 0x01;
    ui_sram_start_addr = fill_b2 0x0100;
    eecr_address = fill_b2 0x1F;
  };
}

abbrev pub at90can64 : DeviceDef
at90can64 = record {
  name = some (codes "at90can64");
  device_id = 0x9681;
  flash_page_size = 256;
  flash_page_count = 256;
  eeprom_page_size = 8;
  eeprom_page_count = 256;
  vectors_end = 37 * 4;
  device_flags = devfl_mkii_only;
  io_reg_defs = none;
  is_xmega = false;
  dev_desc1 = no_mk1_desc 0;
  dev_desc2 = record no_mk2_desc {
    uc_read_io = hexes "FF FF FF F1 DF 3C B9 E8";
    uc_write_io = hexes "B6 6D 1B E0 DF 1C B8 E8";
    uc_read_ext_io =
        hexes "43 C6 33 DF F7 3F F7 3F 00 00 4D 1F 37 37 00 FF FF FF FF 07" ++ zeros 32;
    uc_write_ext_io =
        hexes "43 C6 33 D8 F7 3F F7 3F 00 00 4D 0F 36 36 00 C9 3C F0 FF 04" ++ zeros 32;
    uc_idr_address = 0x31;
    uc_spmcr_address = 0x57;
    uc_rampz_address = 0x3B;
    ui_flash_page_size = fill_b2 256;
    uc_eeprom_page_size = 8;
    ul_boot_address = fill_b4 0x7E00;
    ui_upper_ext_io_loc = fill_b2 0xFA;
    ul_flash_size = fill_b4 65536;
    uc_sph_addr = 0x3E;
    uc_spl_addr = 0x3D;
    ui_flashpages = fill_b2 (65536 / 256);
    enable_page_programming = 1;
    uc_cache_type = 0x01;
    ui_sram_start_addr = fill_b2 0x0100;
    eecr_address = fill_b2 0x1F;
  };
}
