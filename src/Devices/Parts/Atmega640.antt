-- ===== src/Devices/Parts/Atmega640.antt =====
-- src/devdescr.cc, the entries from atmega640 to atmega2560. What is not listed of a description is 0.
use jtag_js.Base.{◌/◌, false, some, zeros, codes, hexes, ◌++◌}
use jtag_js.Devices.Registers.Atmega128.{atmega128_io_registers}
use jtag_js.Devices.{DeviceDef, fill_b2, fill_b4, no_mk1_desc, no_mk2_desc, devfl_mkii_only}

abbrev pub atmega640 : DeviceDef
atmega640 = record {
  name = some (codes "atmega640");
  device_id = 0x9608;
  flash_page_size = 256;
  flash_page_count = 256;
  eeprom_page_size = 8;
  eeprom_page_count = 512;
  vectors_end = 0xe4;
  device_flags = devfl_mkii_only;
  io_reg_defs = some atmega128_io_registers;
  is_xmega = false;
  dev_desc1 = no_mk1_desc 0;
  dev_desc2 = record no_mk2_desc {
    uc_read_io = hexes "FF FF FF FF FF 3D B9 F8";
    uc_write_io = hexes "FF FF 1F E0 FF 1D A9 F8";
    uc_read_ext_io =
        hexes "73 FF 3F FF F7 3F F7 3F F7 3F 5F 3F 37 37 36 00 00 00 00 00 FF 0F 00 00 F7 3F 36"
        ++ zeros 25;
    uc_write_ext_io =
        hexes "73 FF 3F F8 F7 3F F7 3F F7 3F 5F 2F 36 36 36 00 00 00 00 00 FF 0F 00 00 F7 3F 36"
        ++ zeros 25;
    uc_idr_address = 0x31;
    uc_spmcr_address = 0x57;
    uc_rampz_address = 0x3B;
    ui_flash_page_size = fill_b2 256;
    uc_eeprom_page_size = 8;
    ul_boot_address = fill_b4 0x7E00;
    ui_upper_ext_io_loc = fill_b2 0x0136;
    ul_flash_size = fill_b4 0x20000;
    uc_sph_addr = 0x3e;
    uc_spl_addr = 0x3d;
    ui_flashpages = fill_b2 (0x10000 / 256);
    enable_page_programming = 1;
    ui_sram_start_addr = fill_b2 0x200;
    uc_eind_address = 0x3c;
    eecr_address = fill_b2 0x1F;
  };
}

abbrev pub atmega1280 : DeviceDef
atmega1280 = record {
  name = some (codes "atmega1280");
  device_id = 0x9703;
  flash_page_size = 256;
  flash_page_count = 512;
  eeprom_page_size = 8;
  eeprom_page_count = 512;
  vectors_end = 0xe4;
  device_flags = devfl_mkii_only;
  io_reg_defs = some atmega128_io_registers;
  is_xmega = false;
  dev_desc1 = no_mk1_desc 0;
  dev_desc2 = record no_mk2_desc {
    uc_read_io = hexes "FF FF FF FF FF 3D B9 F8";
    uc_write_io = hexes "FF FF 1F E0 FF 1D A9 F8";
    uc_read_ext_io =
        hexes "73 FF 3F FF F7 3F F7 3F F7 3F 5F 3F 37 37 36 00 00 00 00 00 FF 0F 00 00 F7 3F 36"
        ++ zeros 25;
    uc_write_ext_io =
        hexes "73 FF 3F F8 F7 3F F7 3F F7 3F 5F 2F 36 36 36 00 00 00 00 00 FF 0F 00 00 F7 3F 36"
        ++ zeros 25;
    uc_idr_address = 0x31;
    uc_spmcr_address = 0x57;
    uc_rampz_address = 0x3B;
    ui_flash_page_size = fill_b2 256;
    uc_eeprom_page_size = 8;
    ul_boot_address = fill_b4 0xFE00;
    ui_upper_ext_io_loc = fill_b2 0x0136;
    ul_flash_size = fill_b4 0x20000;
    uc_sph_addr = 0x3e;
    uc_spl_addr = 0x3d;
    ui_flashpages = fill_b2 (0x20000 / 256);
    enable_page_programming = 1;
    ui_sram_start_addr = fill_b2 0x200;
    uc_eind_address = 0x3c;
    eecr_address = fill_b2 0x1F;
  };
}

abbrev pub atmega1281 : DeviceDef
atmega1281 = record {
  name = some (codes "atmega1281");
  device_id = 0x9704;
  flash_page_size = 256;
  flash_page_count = 512;
  eeprom_page_size = 8;
  eeprom_page_count = 512;
  vectors_end = 0xe4;
  device_flags = devfl_mkii_only;
  io_reg_defs = some atmega128_io_registers;
  is_xmega = false;
  dev_desc1 = no_mk1_desc 0;
  dev_desc2 = record no_mk2_desc {
    uc_read_io = hexes "FF FF FF F9 FF 3D B9 F8";
    uc_write_io = hexes "FF FF 1F E0 FF 1D A9 F8";
    uc_read_ext_io =
        hexes "73 FF 3F FF F7 3F F7 3F F7 3F 5F 3F 37 37 36 00 00 00 00 00 FF 0F 00 00 F7 3F 36"
        ++ zeros 25;
    uc_write_ext_io =
        hexes "73 FF 3F F8 F7 3F F7 3F F7 3F 5F 2F 36 36 36 00 00 00 00 00 FF 0F 00 00 F7 3F 36"
        ++ zeros 25;
    uc_idr_address = 0x31;
    uc_spmcr_address = 0x57;
    uc_rampz_address = 0x3B;
    ui_flash_page_size = fill_b2 256;
    uc_eeprom_page_size = 8;
    ul_boot_address = fill_b4 0xFE00;
    ui_upper_ext_io_loc = fill_b2 0x0136;
    ul_flash_size = fill_b4 0x20000;
    uc_sph_addr = 0x3e;
    uc_spl_addr = 0x3d;
    ui_flashpages = fill_b2 (0x20000 / 256);
    enable_page_programming = 1;
    ui_sram_start_addr = fill_b2 0x200;
    uc_eind_address = 0x3c;
    eecr_address = fill_b2 0x1F;
  };
}

abbrev pub atmega2560 : DeviceDef
atmega2560 = record {
  name = some (codes "atmega2560");
  device_id = 0x9801;
  flash_page_size = 256;
  flash_page_count = 1024;
  eeprom_page_size = 8;
  eeprom_page_count = 512;
  vectors_end = 0xe4;
  device_flags = devfl_mkii_only;
  io_reg_defs = some atmega128_io_registers;
  is_xmega = false;
  dev_desc1 = no_mk1_desc 0;
  dev_desc2 = record no_mk2_desc {
    uc_read_io = hexes "FF FF FF FF FF 3D B9 F8";
    uc_write_io = hexes "FF FF 1F E0 FF 1D A9 F8";
    uc_read_ext_io =
        hexes "73 FF 3F FF F7 3F F7 3F F7 3F 5F 3F 37 37 37 00 00 00 00 00 FF 0F 00 00 F7 3F 37"
        ++ zeros 25;
    uc_write_ext_io =
        hexes "73 FF 3F F8 F7 3F F7 3F F7 3F 5F 2F 36 36 36 00 00 00 00 00 FF 0F 00 00 F7 3F 36"
        ++ zeros 25;
    uc_idr_address = 0x31;
    uc_spmcr_address = 0x57;
    uc_rampz_address = 0x3B;
    ui_flash_page_size = fill_b2 256;
    uc_eeprom_page_size = 8;
    ul_boot_address = fill_b4 0x1FE00;
    ui_upper_ext_io_loc = fill_b2 0x0136;
    ul_flash_size = fill_b4 0x40000;
    uc_sph_addr = 0x3e;
    uc_spl_addr = 0x3d;
    ui_flashpages = fill_b2 (0x40000 / 256);
    enable_page_programming = 1;
    ui_sram_start_addr = fill_b2 0x200;
    uc_eind_address = 0x3c;
    eecr_address = fill_b2 0x1F;
  };
}
