-- ===== src/Devices/Parts/At90usb646.antt =====
-- src/devdescr.cc, the entries from at90usb646 to atmega165. What is not listed of a description is 0.
use jtag_js.Base.{◌*◌, ◌/◌, false, none, some, zeros, codes, hexes, ◌++◌}
use jtag_js.Devices.{DeviceDef, fill_b2, fill_b4, no_mk1_desc, no_mk2_desc, devfl_mkii_only}

abbrev pub at90usb646 : DeviceDef
at90usb646 = record {
  name = some (codes "at90usb646");
  device_id = 0x9682;
  flash_page_size = 256;
  flash_page_count = 256;
  eeprom_page_size = 8;
  eeprom_page_count = 256;
  vectors_end = 38 * 4;
  device_flags = devfl_mkii_only;
  io_reg_defs = none;
  is_xmega = false;
  dev_desc1 = no_mk1_desc 0;
  dev_desc2 = record no_mk2_desc {
    uc_read_io = hexes "FF FF E3 F9 FF 3F B9 F8";
    uc_write_io = hexes "B6 6D 03 E0 FF 1F B8 F8";
    uc_read_ext_io =
        hexes "73 CF 33 DF F7 3F F7 FF FF 7F 5F 3F 00 37 80 E7 7F FF FD 03" ++ zeros 32;
    uc_write_ext_io =
        hexes "73 CF 33 D8 F7 3F F7 FF F3 7F 5F 2F 00 36 80 E5 0F 7F 31 03" ++ zeros 32;
    uc_idr_address = 0x31;
    uc_spmcr_address = 0x57;
    uc_rampz_address = 0x3B;
    ui_flash_page_size = fill_b2 256;
    uc_eeprom_page_size = 8;
    ul_boot_address = fill_b4 0xFE00;
    ui_upper_ext_io_loc = fill_b2 0x00FF;
    ul_flash_size = fill_b4 65536;
    uc_sph_addr = 0x3E;
    uc_spl_addr = 0x3D;
    ui_flashpages = fill_b2 (65536 / 256);
    enable_page_programming = 1;
    ui_sram_start_addr = fill_b2 0x100;
    uc_eind_address = 0x3C;
    eecr_address = fill_b2 0x1F;
  };
}

abbrev pub at90usb647 : DeviceDef
at90usb647 = record {
  name = some (codes "at90usb647");
  device_id = 0x9682;
  flash_page_size = 256;
  flash_page_count = 256;
  eeprom_page_size = 8;
  eeprom_page_count = 256;
  vectors_end = 38 * 4;
  device_flags = devfl_mkii_only;
  io_reg_defs = none;
  is_xmega = false;
  dev_desc1 = no_mk1_desc 0;
  dev_desc2 = record no_mk2_desc {
    uc_read_io = hexes "FF FF E3 F9 FF 3F B9 F8";
    uc_write_io = hexes "B6 6D 03 E0 FF 1F B8 F8";
    uc_read_ext_io =
        hexes "73 CF 33 DF F7 3F F7 FF FF 7F 5F 3F 00 37 80 E7 7F FF FD 03" ++ zeros 32;
    uc_write_ext_io =
        hexes "73 CF 33 D8 F7 3F F7 FF F3 7F 5F 2F 00 36 80 E5 0F 7F 31 03" ++ zeros 32;
    uc_idr_address = 0x31;
    uc_spmcr_address = 0x57;
    uc_rampz_address = 0x3B;
    ui_flash_page_size = fill_b2 256;
    uc_eeprom_page_size = 8;
    ul_boot_address = fill_b4 0xFE00;
    ui_upper_ext_io_loc = fill_b2 0x00FF;
    ul_flash_size = fill_b4 65536;
    uc_sph_addr = 0x3E;
    uc_spl_addr = 0x3D;
    ui_flashpages = fill_b2 (65536 / 256);
    enable_page_programming = 1;
    ui_sram_start_addr = fill_b2 0x100;
    uc_eind_address = 0x3C;
    eecr_address = fill_b2 0x1F;
  };
}

abbrev pub atmega1284p : DeviceDef
atmega1284p = record {
  name = some (codes "atmega1284p");
  device_id = 0x9705;
  flash_page_size = 256;
  flash_page_count = 512;
  eeprom_page_size = 8;
  eeprom_page_count = 512;
  vectors_end = 35 * 4;
  device_flags = devfl_mkii_only;
  io_reg_defs = none;
  is_xmega = false;
  dev_desc1 = no_mk1_desc 0;
  dev_desc2 = record no_mk2_desc {
    uc_read_io = hexes "FF 0F E0 F9 FF 3D B9 E8";
    uc_read_io_shadow = hexes "00 00 00 00 01" ++ zeros 3;
    uc_write_io = hexes "FF 0F 00 E0 FF 1D B8 E8";
    uc_write_io_shadow = hexes "00 00 00 00 01" ++ zeros 3;
    uc_read_ext_io = hexes "73 FD 0B DF F7 0F F7 0F 00 00 5F 3F 37 37" ++ zeros 38;
    uc_write_ext_io = hexes "73 FD 0B D8 F7 0F F7 0F 00 00 5F 2F 36 36" ++ zeros 38;
    uc_idr_address = 0x31;
    uc_spmcr_address = 0x57;
    uc_rampz_address = 0x3B;
    ui_flash_page_size = fill_b2 256;
    uc_eeprom_page_size = 8;
    ul_boot_address = fill_b4 0xFE00;
    ui_upper_ext_io_loc = fill_b2 0xCE;
    ul_flash_size = fill_b4 131072;
    uc_sph_addr = 0x3E;
    uc_spl_addr = 0x3D;
    ui_flashpages = fill_b2 (131072 / 256);
    enable_page_programming = 1;
    ui_sram_start_addr = fill_b2 0x100;
    eecr_address = fill_b2 0x1F;
  };
}

abbrev pub atmega165 : DeviceDef
atmega165 = record {
  name = some (codes "atmega165");
  device_id = 0x9407;
  flash_page_size = 128;
  flash_page_count = 128;
  eeprom_page_size = 4;
  eeprom_page_count = 128;
  vectors_end = 22 * 4;
  device_flags = devfl_mkii_only;
  io_reg_defs = none;
  is_xmega = false;
  dev_desc1 = no_mk1_desc 0;
  dev_desc2 = record no_mk2_desc {
    uc_read_io = hexes "FF FF FF F0 DF 3C B9 E0";
    uc_write_io = hexes "B6 6D 1B E0 DF 1C B8 E0";
    uc_read_ext_io = hexes "53 DA 01 DF F7 0F 00 00 00 00 4D 07 37" ++ zeros 39;
    uc_write_ext_io = hexes "53 DA 01 D8 F7 0F 00 00 00 00 4D 05 36" ++ zeros 39;
    uc_idr_address = 0x31;
    uc_spmcr_address = 0x57;
    ui_flash_page_size = fill_b2 128;
    uc_eeprom_page_size = 4;
    ul_boot_address = fill_b4 0x1F80;
    ui_upper_ext_io_loc = fill_b2 0xFE;
    ul_flash_size = fill_b4 16384;
    uc_sph_addr = 0x3E;
    uc_spl_addr = 0x3D;
    ui_flashpages = fill_b2 (16384 / 128);
    enable_page_programming = 1;
    ui_sram_start_addr = fill_b2 0x100;
    eecr_address = fill_b2 0x1F;
  };
}
