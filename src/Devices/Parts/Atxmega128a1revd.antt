-- ===== src/Devices/Parts/Atxmega128a1revd.antt =====
-- src/devdescr.cc, the entries from atxmega128a1revd to atmega128rfa1. What is not listed of a description is 0.
use jtag_js.Base.{◌*◌, ◌/◌, true, false, none, some, zeros, codes, hexes, ◌++◌}
use jtag_js.Devices.{DeviceDef, fill_b2, fill_b4, no_mk1_desc, no_mk2_desc, devfl_mkii_only}

abbrev pub atxmega128a1revd : DeviceDef
atxmega128a1revd = record {
  name = some (codes "atxmega128a1revd");
  device_id = 0x9741;
  flash_page_size = 512;
  flash_page_count = 272;
  eeprom_page_size = 32;
  eeprom_page_count = 64;
  vectors_end = 0 * 4;
  device_flags = devfl_mkii_only;
  io_reg_defs = none;
  is_xmega = false;
  dev_desc1 = no_mk1_desc 0;
  dev_desc2 = record no_mk2_desc {
    uc_read_io = hexes "FF FF FF F9 FF 3D B9 F8";
    uc_write_io = hexes "FF FF 1F E0 FF 1D A9 F8";
    uc_read_ext_io =
        hexes "73 FF 3F FF F7 3F F7 3F F7 3F 5F 3F 37 37 36 00 00 00 00 00 FF 0F 00 00 F7 3F 36"
        ++ zeros 25;
    uc_write_ext_io =
        hexes "73 FF 3F F8 F7 3F F7 3F F7 3F 5F 2F 36 36 36 00 00 00 00 00 FF 0F 00 00 F7 3F 36"
        ++ zeros 25;
    uc_idr_address = 0x31;
    uc_spmcr_address = 0x57;
    ui_flash_page_size = fill_b2 512;
    uc_eeprom_page_size = 32;
    ul_boot_address = fill_b4 0x20000;
    ui_upper_ext_io_loc = fill_b2 0x136;
    ul_flash_size = fill_b4 139264;
    uc_sph_addr = 0x3E;
    uc_spl_addr = 0x3D;
    ui_flashpages = fill_b2 (139264 / 512);
    enable_page_programming = 1;
    uc_cache_type = 0x02;
    ui_sram_start_addr = fill_b2 8192;
  };
}

abbrev pub atxmega128a1 : DeviceDef
atxmega128a1 = record {
  name = some (codes "atxmega128a1");
  device_id = 0x974c;
  flash_page_size = 512;
  flash_page_count = 272;
  eeprom_page_size = 32;
  eeprom_page_count = 64;
  vectors_end = 0 * 4;
  device_flags = devfl_mkii_only;
  io_reg_defs = none;
  is_xmega = true;
  dev_desc1 = no_mk1_desc 0;
  dev_desc2 = record no_mk2_desc {
    uc_read_io = hexes "FF FF FF F9 FF 3D B9 F8";
    uc_write_io = hexes "FF FF 1F E0 FF 1D A9 F8";
    uc_read_ext_io =
        hexes "73 FF 3F FF F7 3F F7 3F F7 3F 5F 3F 37 37 36 00 00 00 00 00 FF 0F 00 00 F7 3F 36"
        ++ zeros 25;
    uc_write_ext_io =
        hexes "73 FF 3F F8 F7 3F F7 3F F7 3F 5F 2F 36 36 36 00 00 00 00 00 FF 0F 00 00 F7 3F 36"
        ++ zeros 25;
    uc_idr_address = 0x31;
    uc_spmcr_address = 0x57;
    ui_flash_page_size = fill_b2 512;
    uc_eeprom_page_size = 32;
    ul_boot_address = fill_b4 0x20000;
    ui_upper_ext_io_loc = fill_b2 0x136;
    ul_flash_size = fill_b4 139264;
    uc_sph_addr = 0x3E;
    uc_spl_addr = 0x3D;
    ui_flashpages = fill_b2 (139264 / 512);
    enable_page_programming = 1;
    uc_cache_type = 0x02;
    ui_sram_start_addr = fill_b2 8192;
  };
}

abbrev pub atmega128rfa1 : DeviceDef
atmega128rfa1 = record {
  name = some (codes "atmega128rfa1");
  device_id = 0xA701;
  flash_page_size = 256;
  flash_page_count = 512;
  eeprom_page_size = 8;
  eeprom_page_count = 512;
  vectors_end = 71 * 4;
  device_flags = devfl_mkii_only;
  io_reg_defs = none;
  is_xmega = false;
  dev_desc1 = no_mk1_desc 0;
  dev_desc2 = record no_mk2_desc {
    uc_read_io = hexes "FF FF FF F9 FF 3D B9 F8";
    uc_write_io = hexes "FF FF 1F E0 FF 1D A9 F8";
    uc_read_ext_io =
        hexes
          "73 FF 3F FF F7 3F F7 3F F7 3F 5F 3F 37 37 36 F0 FF FF FF 01 FF 0F 00 00 F7 3F 36 00 FF FF FF FF FF FF FF FF FF FF FF FF FF FF FF FF FF FF FF FF FF FF FF FF";
    uc_write_ext_io =
        hexes
          "73 FF 3F F8 F7 3F F7 3F F7 3F 5F 2F 36 36 36 F0 FF FF FF 01 FF 0F 00 00 F7 3F 36 00 FF FF FF FF FF FF FF FF FF FF FF FF FF FF FF FF FF FF FF FF FF FF FF FF";
    uc_idr_address = 0x31;
    uc_spmcr_address = 0x57;
    uc_rampz_address = 0x3B;
    ui_flash_page_size = fill_b2 256;
    uc_eeprom_page_size = 8;
    ul_boot_address = fill_b4 0xFE00;
    ui_upper_ext_io_loc = fill_b2 0x01FF;
    ul_flash_size = fill_b4 131072;
    uc_sph_addr = 0x3E;
    uc_spl_addr = 0x3D;
    ui_flashpages = fill_b2 (131072 / 256);
    enable_page_programming = 1;
    ui_sram_start_addr = fill_b2 0x200;
    uc_eind_address = 0x3C;
    eecr_address = fill_b2 0x1F;
  };
}
