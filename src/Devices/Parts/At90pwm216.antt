-- ===== src/Devices/Parts/At90pwm216.antt =====
-- src/devdescr.cc, the entries from at90pwm216 to at90usb162. What is not listed of a description is 0.
use jtag_js.Base.{◌*◌, ◌/◌, false, none, some, [], ◌∷◌, zeros, codes, hexes, ◌++◌}
use jtag_js.Devices.{DeviceDef, fill_b2, fill_b4, no_mk1_desc, no_mk2_desc, devfl_mkii_only}

abbrev pub at90pwm216 : DeviceDef
at90pwm216 = record {
  name = some (codes "at90pwm216");
  device_id = 0x9483;
  flash_page_size = 64;
  flash_page_count = 256;
  eeprom_page_size = 4;
  eeprom_page_count = 128;
  vectors_end = 32 * 4;
  device_flags = devfl_mkii_only;
  io_reg_defs = none;
  is_xmega = false;
  dev_desc1 = no_mk1_desc 0;
  dev_desc2 = record no_mk2_desc {
    uc_read_io = hexes "F8 7F 60 FE FF 33 B9 E0";
    uc_write_io = hexes "F8 7F 40 EE FF 33 BC E0";
    uc_read_ext_io =
        hexes "53 C2 C0 DF F7 0F 00 00 3F E4 00 00 37 37 FD FF 00 00 FF FF" ++ zeros 32;
    uc_write_ext_io =
        hexes "11 C2 C0 D8 F7 0F 00 00 3F E4 00 00 36 33 01 FC 05 FC 07 FC" ++ zeros 32;
    ui_flash_page_size = fill_b2 64;
    uc_eeprom_page_size = 4;
    ul_boot_address = fill_b4 0x1F00;
    ui_upper_ext_io_loc = fill_b2 0xFF;
    ul_flash_size = fill_b4 16384;
    uc_eeprom_inst = hexes "BD F2 BD E1 BB CF B4 00 BE 01 B6 01 BC 00 BB BF 99 F9 BB AF";
    uc_flash_inst = 0xB6 ∷ 0x01 ∷ 0x11 ∷ [];
    uc_sph_addr = 0x3E;
    uc_spl_addr = 0x3D;
    ui_flashpages = fill_b2 (16384 / 64);
    uc_dwdr_address = 0x31;
    ui_start_smallest_boot_loader_section = fill_b2 0x1F00;
    enable_page_programming = 1;
    ui_sram_start_addr = fill_b2 0x0100;
    eecr_address = fill_b2 0x1F;
  };
}

abbrev pub at90pwm316 : DeviceDef
at90pwm316 = record {
  name = some (codes "at90pwm316");
  device_id = 0x9483;
  flash_page_size = 64;
  flash_page_count = 256;
  eeprom_page_size = 4;
  eeprom_page_count = 128;
  vectors_end = 32 * 4;
  device_flags = devfl_mkii_only;
  io_reg_defs = none;
  is_xmega = false;
  dev_desc1 = no_mk1_desc 0;
  dev_desc2 = record no_mk2_desc {
    uc_read_io = hexes "F8 7F 60 FE FF 33 B9 E0";
    uc_write_io = hexes "F8 7F 40 EE FF 33 BC E0";
    uc_read_ext_io =
        hexes "53 C2 C0 DF F7 0F 00 00 3F E4 00 00 37 37 FD FF FD FF FF FF" ++ zeros 32;
    uc_write_ext_io =
        hexes "11 C2 C0 D8 F7 0F 00 00 3F E4 00 00 36 33 01 FC 05 FC 07 FC" ++ zeros 32;
    ui_flash_page_size = fill_b2 64;
    uc_eeprom_page_size = 4;
    ul_boot_address = fill_b4 0x1F00;
    ui_upper_ext_io_loc = fill_b2 0xFF;
    ul_flash_size = fill_b4 16384;
    uc_eeprom_inst = hexes "BD F2 BD E1 BB CF B4 00 BE 01 B6 01 BC 00 BB BF 99 F9 BB AF";
    uc_flash_inst = 0xB6 ∷ 0x01 ∷ 0x11 ∷ [];
    uc_sph_addr = 0x3E;
    uc_spl_addr = 0x3D;
    ui_flashpages = fill_b2 (16384 / 64);
    uc_dwdr_address = 0x31;
    ui_start_smallest_boot_loader_section = fill_b2 0x1F00;
    enable_page_programming = 1;
    ui_sram_start_addr = fill_b2 0x0100;
    eecr_address = fill_b2 0x1F;
  };
}

abbrev pub at90usb1287 : DeviceDef
at90usb1287 = record {
  name = some (codes "at90usb1287");
  device_id = 0x9782;
  flash_page_size = 256;
  flash_page_count = 512;
  eeprom_page_size = 8;
  eeprom_page_count = 512;
  vectors_end = 38 * 4;
  device_flags = devfl_mkii_only;
  io_reg_defs = none;
  is_xmega = false;
  dev_desc1 = no_mk1_desc 0;
  dev_desc2 = record no_mk2_desc {
    uc_read_io = hexes "FF FF E3 F9 FF 3F B9 F8";
    uc_write_io = hexes "B6 6D 03 E0 FF 1F B8 F8";
    uc_read_ext_io =
        hexes "73 CF 33 DF F7 3F F7 FF FF 7F 5F 3F 00 37 80 E7 7F FF FD 03" ++ zeros 32;
    uc_write_ext_io =
        hexes "73 CF 33 D8 F7 3F F7 FF F3 7F 5F 2F 00 36 80 E5 0F 7F 31 03" ++ zeros 32;
    uc_idr_address = 0x31;
    uc_spmcr_address = 0x57;
    uc_rampz_address = 0x3B;
    ui_flash_page_size = fill_b2 256;
    uc_eeprom_page_size = 8;
    ul_boot_address = fill_b4 0xFE00;
    ui_upper_ext_io_loc = fill_b2 0x00FF;
    ul_flash_size = fill_b4 131072;
    uc_sph_addr = 0x3E;
    uc_spl_addr = 0x3D;
    ui_flashpages = fill_b2 (131072 / 256);
    enable_page_programming = 1;
    ui_sram_start_addr = fill_b2 0x100;
    uc_eind_address = 0x3C;
    eecr_address = fill_b2 0x1F;
  };
}

abbrev pub at90usb162 : DeviceDef
at90usb162 = record {
  name = some (codes "at90usb162");
  device_id = 0x9482;
  flash_page_size = 128;
  flash_page_count = 128;
  eeprom_page_size = 4;
  eeprom_page_count = 128;
  vectors_end = 38 * 4;
  device_flags = devfl_mkii_only;
  io_reg_defs = none;
  is_xmega = false;
  dev_desc1 = no_mk1_desc 0;
  dev_desc2 = record no_mk2_desc {
    uc_read_io = hexes "F8 0F 60 F8 FF 3F B9 F0";
    uc_write_io = hexes "B0 0D 00 E0 FF 1F B8 F0";
    uc_read_ext_io =
        hexes "7F DF 00 00 F7 3F 00 00 00 00 00 00 00 3F 07 01 7F FF 15 0C" ++ zeros 32;
    uc_write_ext_io =
        hexes "34 DF 00 C8 F7 3F 40 00 00 00 00 00 00 7F 03 01 0F 7F 11 0C" ++ zeros 32;
    uc_rampz_address = 0x3B;
    ui_flash_page_size = fill_b2 128;
    uc_eeprom_page_size = 4;
    ul_boot_address = fill_b4 0x1F00;
    ui_upper_ext_io_loc = fill_b2 0xFB;
    ul_flash_size = fill_b4 16384;
    uc_eeprom_inst = hexes "BD F2 BD E1 BB CF B4 00 BE 01 B6 01 BC 00 BB BF 99 F9 BB AF";
    uc_flash_inst = 0xB6 ∷ 0x01 ∷ 0x11 ∷ [];
    uc_sph_addr = 0x3E;
    uc_spl_addr = 0x3D;
    ui_flashpages = fill_b2 (16384 / 128);
    uc_dwdr_address = 0x31;
    ui_start_smallest_boot_loader_section = fill_b2 0x1F00;
    enable_page_programming = 1;
    ui_sram_start_addr = fill_b2 0x100;
    uc_eind_address = 0x3C;
    eecr_address = fill_b2 0x1F;
  };
}
