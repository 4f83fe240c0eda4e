-- ===== src/Devices/Parts/Atmega329.antt =====
-- src/devdescr.cc, the entries from atmega329 to atmega6490. What is not listed of a description is 0.
use jtag_js.Base.{◌*◌, ◌/◌, false, none, some, zeros, codes, hexes, ◌++◌}
use jtag_js.Devices.{DeviceDef, fill_b2, fill_b4, no_mk1_desc, no_mk2_desc, devfl_mkii_only}

abbrev pub atmega329 : DeviceDef
atmega329 = record {
  name = some (codes "atmega329");
  device_id = 0x9503;
  flash_page_size = 128;
  flash_page_count = 256;
  eeprom_page_size = 4;
  eeprom_page_count = 256;
  vectors_end = 23 * 4;
  device_flags = devfl_mkii_only;
  io_reg_defs = none;
  is_xmega = false;
  dev_desc1 = no_mk1_desc 0;
  dev_desc2 = record no_mk2_desc {
    uc_read_io = hexes "FF FF FF F0 DF 3C B9 E0";
    uc_write_io = hexes "B6 6D 1B E0 DF 1C B8 E0";
    uc_read_ext_io =
        hexes "53 DA 01 DF F7 0F 00 00 00 00 4D 07 37 00 00 00 F0 F0 DE 7B" ++ zeros 32;
    uc_write_ext_io =
        hexes "53 DA 01 D8 F7 0F 00 00 00 00 4D 05 36 00 00 00 E0 F0 DE 7B" ++ zeros 32;
    uc_idr_address = 0x31;
    uc_spmcr_address = 0x57;
    ui_flash_page_size = fill_b2 128;
    uc_eeprom_page_size = 4;
    ul_boot_address = fill_b4 0x3F00;
    ui_upper_ext_io_loc = fill_b2 0xFE;
    ul_flash_size = fill_b4 0x8000;
    uc_sph_addr = 0x3e;
    uc_spl_addr = 0x3d;
    ui_flashpages = fill_b2 (0x8000 / 128);
    uc_dw_base_pc = 0x40;
    enable_page_programming = 1;
    ui_sram_start_addr = fill_b2 0x100;
    eecr_address = fill_b2 0x1f;
  };
}

abbrev pub atmega3290 : DeviceDef
atmega3290 = record {
  name = some (codes "atmega3290");
  device_id = 0x9504;
  flash_page_size = 128;
  flash_page_count = 256;
  eeprom_page_size = 4;
  eeprom_page_count = 256;
  vectors_end = 25 * 4;
  device_flags = devfl_mkii_only;
  io_reg_defs = none;
  is_xmega = false;
  dev_desc1 = no_mk1_desc 0;
  dev_desc2 = record no_mk2_desc {
    uc_read_io = hexes "FF FF FF F0 DF 3C B9 E0";
    uc_write_io = hexes "B6 6D 1B E0 DF 1C B8 E0";
    uc_read_ext_io =
        hexes "53 FA 09 DF F7 0F 00 00 00 00 4D 07 37 00 00 3F F0 F0 FF FF" ++ zeros 32;
    uc_write_ext_io =
        hexes "53 FA 09 D8 F7 0F 00 00 00 00 4D 05 36 00 00 3F E0 F0 FF FF" ++ zeros 32;
    uc_idr_address = 0x31;
    uc_spmcr_address = 0x57;
    ui_flash_page_size = fill_b2 128;
    uc_eeprom_page_size = 4;
    ul_boot_address = fill_b4 0x3F00;
    ui_upper_ext_io_loc = fill_b2 0xFE;
    ul_flash_size = fill_b4 0x8000;
    uc_sph_addr = 0x3e;
    uc_spl_addr = 0x3d;
    ui_flashpages = fill_b2 (0x8000 / 128);
    uc_dw_base_pc = 0x40;
    enable_page_programming = 1;
    ui_sram_start_addr = fill_b2 0x100;
    eecr_address = fill_b2 0x1f;
  };
}

abbrev pub atmega649 : DeviceDef
atmega649 = record {
  name = some (codes "atmega649");
  device_id = 0x9603;
  flash_page_size = 256;
  flash_page_count = 256;
  eeprom_page_size = 8;
  eeprom_page_count = 256;
  vectors_end = 23 * 4;
  device_flags = devfl_mkii_only;
  io_reg_defs = none;
  is_xmega = false;
  dev_desc1 = no_mk1_desc 0;
  dev_desc2 = record no_mk2_desc {
    uc_read_io = hexes "FF FF FF F0 DF 3C B9 E0";
    uc_write_io = hexes "B6 6D 1B E0 DF 1C B8 E0";
    uc_read_ext_io =
        hexes "53 DA 01 DF F7 0F 00 00 00 00 4D 07 37 00 00 00 F0 F0 DE 7B" ++ zeros 32;
    uc_write_ext_io =
        hexes "53 DA 01 D8 F7 0F 00 00 00 00 4D 05 36 00 00 00 E0 F0 DE 7B" ++ zeros 32;
    uc_idr_address = 0x31;
    uc_spmcr_address = 0x57;
    ui_flash_page_size = fill_b2 256;
    uc_eeprom_page_size = 8;
    ul_boot_address = fill_b4 0x7E00;
    ui_upper_ext_io_loc = fill_b2 0xFE;
    ul_flash_size = fill_b4 0x10000;
    uc_sph_addr = 0x3e;
    uc_spl_addr = 0x3d;
    ui_flashpages = fill_b2 (0x10000 / 256);
    uc_dw_base_pc = 0x40;
    enable_page_programming = 1;
    ui_sram_start_addr = fill_b2 0x100;
    eecr_address = fill_b2 0x1f;
  };
}

abbrev pub atmega6490 : DeviceDef
atmega6490 = record {
  name = some (codes "atmega6490");
  device_id = 0x9604;
  flash_page_size = 256;
  flash_page_count = 256;
  eeprom_page_size = 8;
  eeprom_page_count = 256;
  vectors_end = 25 * 4;
  device_flags = devfl_mkii_only;
  io_reg_defs = none;
  is_xmega = false;
  dev_desc1 = no_mk1_desc 0;
  dev_desc2 = record no_mk2_desc {
    uc_read_io = hexes "FF FF FF F0 DF 3C B9 E0";
    uc_write_io = hexes "B6 6D 1B E0 DF 1C B8 E0";
    uc_read_ext_io =
        hexes "53 FA 09 DF F7 0F 00 00 00 00 4D 07 37 00 00 3F F0 F0 FF FF" ++ zeros 32;
    uc_write_ext_io =
        hexes "53 FA 09 D8 F7 0F 00 00 00 00 4D 05 36 00 00 3F E0 F0 FF FF" ++ zeros 32;
    uc_idr_address = 0x31;
    uc_spmcr_address = 0x57;
    ui_flash_page_size = fill_b2 256;
    uc_eeprom_page_size = 8;
    ul_boot_address = fill_b4 0x7E00;
    ui_upper_ext_io_loc = fill_b2 0xFF;
    ul_flash_size = fill_b4 0x10000;
    uc_sph_addr = 0x3e;
    uc_spl_addr = 0x3d;
    ui_flashpages = fill_b2 (0x10000 / 256);
    uc_dw_base_pc = 0x40;
    enable_page_programming = 1;
    ui_sram_start_addr = fill_b2 0x100;
    eecr_address = fill_b2 0x1f;
  };
}
