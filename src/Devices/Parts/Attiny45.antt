-- ===== src/Devices/Parts/Attiny45.antt =====
-- src/devdescr.cc, the entries from attiny45 to attiny861. What is not listed of a description is 0.
use jtag_js.Base.{◌*◌, ◌/◌, false, none, some, [], ◌∷◌, codes, hexes}
use jtag_js.Devices.{DeviceDef, fill_b2, fill_b4, no_mk1_desc, no_mk2_desc, devfl_mkii_only}

abbrev pub attiny45 : DeviceDef
attiny45 = record {
  name = some (codes "attiny45");
  device_id = 0x9206;
  flash_page_size = 64;
  flash_page_count = 64;
  eeprom_page_size = 4;
  eeprom_page_count = 64;
  vectors_end = 15 * 2;
  device_flags = devfl_mkii_only;
  io_reg_defs = none;
  is_xmega = false;
  dev_desc1 = no_mk1_desc 0;
  dev_desc2 = record no_mk2_desc {
    uc_read_io = hexes "F8 E1 FF F1 FB FF BF EF";
    uc_write_io = hexes "C8 E1 FF 71 BB 7F AD EB";
    ui_flash_page_size = fill_b2 64;
    uc_eeprom_page_size = 4;
    ul_flash_size = fill_b4 4096;
    uc_eeprom_inst = hexes "BB FF BB EE BB CC B2 0D BC 02 B4 02 BA 0D BB BC 99 E1 BB AC";
    uc_flash_inst = 0xB4 ∷ 0x02 ∷ 0x12 ∷ [];
    uc_sph_addr = 0x3E;
    uc_spl_addr = 0x3D;
    ui_flashpages = fill_b2 (4096 / 64);
    uc_dwdr_address = 0x22;
    enable_page_programming = 1;
    ui_sram_start_addr = fill_b2 0x60;
    eecr_address = fill_b2 0x1C;
  };
}

abbrev pub attiny85 : DeviceDef
attiny85 = record {
  name = some (codes "attiny85");
  device_id = 0x930B;
  flash_page_size = 64;
  flash_page_count = 128;
  eeprom_page_size = 4;
  eeprom_page_count = 128;
  vectors_end = 15 * 2;
  device_flags = devfl_mkii_only;
  io_reg_defs = none;
  is_xmega = false;
  dev_desc1 = no_mk1_desc 0;
  dev_desc2 = record no_mk2_desc {
    uc_read_io = hexes "F8 E1 FF F1 FB FF BF EF";
    uc_write_io = hexes "C8 E1 FF 71 BB 7F AD EB";
    ui_flash_page_size = fill_b2 64;
    uc_eeprom_page_size = 4;
    ul_flash_size = fill_b4 8192;
    uc_eeprom_inst = hexes "BB FF BB EE BB CC B2 0D BC 02 B4 02 BA 0D BB BC 99 E1 BB AC";
    uc_flash_inst = 0xB4 ∷ 0x02 ∷ 0x12 ∷ [];
    uc_sph_addr = 0x3E;
    uc_spl_addr = 0x3D;
    ui_flashpages = fill_b2 (8192 / 64);
    uc_dwdr_address = 0x22;
    enable_page_programming = 1;
    ui_sram_start_addr = fill_b2 0x60;
    eecr_address = fill_b2 0x1C;
  };
}

abbrev pub attiny261 : DeviceDef
attiny261 = record {
  name = some (codes "attiny261");
  device_id = 0x910C;
  flash_page_size = 32;
  flash_page_count = 64;
  eeprom_page_size = 4;
  eeprom_page_count = 32;
  vectors_end = 19 * 2;
  device_flags = devfl_mkii_only;
  io_reg_defs = none;
  is_xmega = false;
  dev_desc1 = no_mk1_desc 0;
  dev_desc2 = record no_mk2_desc {
    uc_read_io = hexes "FF FF FF FF FE FB FF EF";
    uc_write_io = hexes "8F BF BE FD FC BA FD EA";
    uc_spmcr_address = 0x57;
    ui_flash_page_size = fill_b2 32;
    uc_eeprom_page_size = 4;
    ul_flash_size = fill_b4 2048;
    uc_eeprom_inst = hexes "BB FF BB EE BB CC B2 0D BC 00 B4 00 BA 0D BB BC 99 E1 BB AC";
    uc_flash_inst = 0xB4 ∷ 0x00 ∷ 0x10 ∷ [];
    uc_sph_addr = 0x3E;
    uc_spl_addr = 0x3D;
    ui_flashpages = fill_b2 (2048 / 32);
    uc_dwdr_address = 0x20;
    enable_page_programming = 1;
    ui_sram_start_addr = fill_b2 0x60;
    eecr_address = fill_b2 0x1C;
  };
}

abbrev pub attiny461 : DeviceDef
attiny461 = record {
  name = some (codes "attiny461");
  device_id = 0x9208;
  flash_page_size = 64;
  flash_page_count = 64;
  eeprom_page_size = 4;
  eeprom_page_count = 64;
  vectors_end = 19 * 2;
  device_flags = devfl_mkii_only;
  io_reg_defs = none;
  is_xmega = false;
  dev_desc1 = no_mk1_desc 0;
  dev_desc2 = record no_mk2_desc {
    uc_read_io = hexes "FF FF FF FF FE FB FF EF";
    uc_write_io = hexes "8F BF BE FD FC BA FD EA";
    uc_spmcr_address = 0x57;
    ui_flash_page_size = fill_b2 64;
    uc_eeprom_page_size = 4;
    ul_flash_size = fill_b4 4096;
    uc_eeprom_inst = hexes "BB FF BB EE BB CC B2 0D BC 00 B4 00 BA 0D BB BC 99 E1 BB AC";
    uc_flash_inst = 0xB4 ∷ 0x00 ∷ 0x10 ∷ [];
    uc_sph_addr = 0x3E;
    uc_spl_addr = 0x3D;
    ui_flashpages = fill_b2 (4096 / 64);
    uc_dwdr_address = 0x20;
    enable_page_programming = 1;
    ui_sram_start_addr = fill_b2 0x60;
    eecr_address = fill_b2 0x1C;
  };
}

abbrev pub attiny861 : DeviceDef
attiny861 = record {
  name = some (codes "attiny861");
  device_id = 0x930D;
  flash_page_size = 64;
  flash_page_count = 128;
  eeprom_page_size = 4;
  eeprom_page_count = 128;
  vectors_end = 19 * 2;
  device_flags = devfl_mkii_only;
  io_reg_defs = none;
  is_xmega = false;
  dev_desc1 = no_mk1_desc 0;
  dev_desc2 = record no_mk2_desc {
    uc_read_io = hexes "FF FF FF FF FE FB FF EF";
    uc_write_io = hexes "8F BF BE FD FC BA FD EA";
    uc_spmcr_address = 0x57;
    ui_flash_page_size = fill_b2 64;
    uc_eeprom_page_size = 4;
    ul_flash_size = fill_b4 8192;
    uc_eeprom_inst = hexes "BB FF BB EE BB CC B2 0D BC 00 B4 00 BA 0D BB BC 99 E1 BB AC";
    uc_flash_inst = 0xB4 ∷ 0x00 ∷ 0x10 ∷ [];
    uc_sph_addr = 0x3E;
    uc_spl_addr = 0x3D;
    ui_flashpages = fill_b2 (8192 / 64);
    uc_dwdr_address = 0x20;
    enable_page_programming = 1;
    ui_sram_start_addr = fill_b2 0x60;
    eecr_address = fill_b2 0x1C;
  };
}
