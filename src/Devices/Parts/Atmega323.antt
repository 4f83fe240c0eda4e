-- ===== src/Devices/Parts/Atmega323.antt =====
-- src/devdescr.cc, the entries from atmega323 to atmega64. What is not listed of a description is 0.
use jtag_js.Base.{◌/◌, false, none, some, [], ◌∷◌, zeros, codes, hexes, ◌++◌}
use jtag_js.Devices.Registers.Atmega128.{atmega128_io_registers}
use jtag_js.Devices.Registers.Atmega32.{atmega32_io_registers}
use jtag_js.Devices.{
  DeviceDef, fill_b2, fill_b4, no_mk2_desc, devfl_none, jtag_c_set_device_descriptor,
}

abbrev pub atmega323 : DeviceDef
atmega323 = record {
  name = some (codes "atmega323");
  device_id = 0x9501;
  flash_page_size = 128;
  flash_page_count = 256;
  eeprom_page_size = 4;
  eeprom_page_count = 256;
  vectors_end = 0x50;
  device_flags = devfl_none;
  io_reg_defs = none;
  is_xmega = false;
  dev_desc1 = record {
    cmd = jtag_c_set_device_descriptor;
    rd = hexes "CF AF FF FF FE FF FF FF";
    wr = hexes "87 26 FF EF FE FF 3F FA";
    sh_rd = hexes "00 00 00 00 00 2F" ++ zeros 2;
    sh_wr = hexes "00 00 00 00 00 2F" ++ zeros 2;
    ext_rd = zeros 20;
    ext_wr = zeros 20;
    ext_sh_rd = zeros 20;
    ext_sh_wr = zeros 20;
    idr_addr = 0x31;
    spmcr_addr = 0x57;
    rampz_addr = 0x00;
    flash_pg_sz = 128 ∷ 0 ∷ [];
    eeprom_pg_sz = 0;
    boot_addr = 0x00 ∷ 0x3F ∷ 0x00 ∷ 0x00 ∷ [];
    last_ext_io_addr = 0;
    eom = 0x20 ∷ 0x20 ∷ [];
  };
  dev_desc2 = record no_mk2_desc {
    uc_read_io = hexes "FF 6F FF FF FE FF FD FF";
    uc_read_io_shadow = hexes "00 00 00 00 01" ++ zeros 3;
    uc_write_io = hexes "8F 26 B6 FD FE FF BD FA";
    uc_write_io_shadow = hexes "00 00 00 00 01" ++ zeros 3;
    uc_idr_address = 0x31;
    uc_spmcr_address = 0x57;
    ui_flash_page_size = fill_b2 128;
    uc_eeprom_page_size = 4;
    ul_boot_address = fill_b4 0x3F00;
    ul_flash_size = fill_b4 0x8000;
    uc_sph_addr = 0x3e;
    uc_spl_addr = 0x3d;
    ui_flashpages = fill_b2 (0x8000 / 128);
    uc_allow_full_page_bitstream = 1;
    enable_page_programming = 1;
    ui_sram_start_addr = fill_b2 0x60;
    eecr_address = fill_b2 0x1c;
  };
}

abbrev pub atmega32 : DeviceDef
atmega32 = record {
  name = some (codes "atmega32");
  device_id = 0x9502;
  flash_page_size = 128;
  flash_page_count = 256;
  eeprom_page_size = 4;
  eeprom_page_count = 256;
  vectors_end = 0x54;
  device_flags = devfl_none;
  io_reg_defs = some atmega32_io_registers;
  is_xmega = false;
  dev_desc1 = record {
    cmd = jtag_c_set_device_descriptor;
    rd = hexes "FF 6F FF FF FF FF FF FF";
    wr = hexes "FF 66 FF FF FF FF BF FA";
    sh_rd = zeros 8;
    sh_wr = zeros 8;
    ext_rd = zeros 20;
    ext_wr = zeros 20;
    ext_sh_rd = zeros 20;
    ext_sh_wr = zeros 20;
    idr_addr = 0x31;
    spmcr_addr = 0x57;
    rampz_addr = 0x00;
    flash_pg_sz = 128 ∷ 0 ∷ [];
    eeprom_pg_sz = 4;
    boot_addr = 0x00 ∷ 0x3F ∷ 0x00 ∷ 0x00 ∷ [];
    last_ext_io_addr = 0;
    eom = 0x20 ∷ 0x20 ∷ [];
  };
  dev_desc2 = record no_mk2_desc {
    uc_read_io = hexes "FF 6F FF FF FE FF FD FF";
    uc_read_io_shadow = hexes "00 00 00 00 01" ++ zeros 3;
    uc_write_io = hexes "8F 26 B6 FD FE FF BD FA";
    uc_write_io_shadow = hexes "00 00 00 00 01" ++ zeros 3;
    uc_idr_address = 0x31;
    uc_spmcr_address = 0x57;
    ui_flash_page_size = fill_b2 128;
    uc_eeprom_page_size = 4;
    ul_boot_address = fill_b4 0x3F00;
    ul_flash_size = fill_b4 0x8000;
    uc_sph_addr = 0x3e;
    uc_spl_addr = 0x3d;
    ui_flashpages = fill_b2 (0x8000 / 128);
    uc_allow_full_page_bitstream = 1;
    enable_page_programming = 1;
    ui_sram_start_addr = fill_b2 0x60;
    eecr_address = fill_b2 0x1c;
  };
}

abbrev pub atmega64 : DeviceDef
atmega64 = record {
  name = some (codes "atmega64");
  device_id = 0x9602;
  flash_page_size = 256;
  flash_page_count = 256;
  eeprom_page_size = 8;
  eeprom_page_count = 256;
  vectors_end = 0x8c;
  device_flags = devfl_none;
  io_reg_defs = some atmega128_io_registers;
  is_xmega = false;
  dev_desc1 = record {
    cmd = jtag_c_set_device_descriptor;
    rd = hexes "CF 2F FF FF FF FF FF FF";
    wr = hexes "CF 27 FF FF FF FF FF FE";
    sh_rd = zeros 8;
    sh_wr = zeros 8;
    ext_rd = hexes "3E B5 1F 37 FF 1F 21 2F" ++ zeros 12;
    ext_wr = hexes "3E B5 0F 27 FF 1F 21 27" ++ zeros 12;
    ext_sh_rd = zeros 20;
    ext_sh_wr = zeros 20;
    idr_addr = 0x22;
    spmcr_addr = 0x68;
    rampz_addr = 0x00;
    flash_pg_sz = 0 ∷ 1 ∷ [];
    eeprom_pg_sz = 8;
    boot_addr = 0x00 ∷ 0x7E ∷ 0x00 ∷ 0x00 ∷ [];
    last_ext_io_addr = 0x9D;
    eom = 0x20 ∷ 0x20 ∷ [];
  };
  dev_desc2 = record no_mk2_desc {
    uc_read_io = hexes "FF 6F FF FF FB FF FF F7";
    uc_write_io = hexes "8C 26 B6 FD FB FF BF F6";
    uc_read_ext_io = hexes "3E B5 1F 37 FF 5F 21 2F" ++ zeros 44;
    uc_write_ext_io = hexes "36 B5 0F 27 FF 5F 21 27" ++ zeros 44;
    uc_idr_address = 0x22;
    uc_spmcr_address = 0x68;
    ui_flash_page_size = fill_b2 256;
    uc_eeprom_page_size = 8;
    ul_boot_address = fill_b4 0x7E00;
    ui_upper_ext_io_loc = fill_b2 0x9D;
    ul_flash_size = fill_b4 0x10000;
    uc_sph_addr = 0x3e;
    uc_spl_addr = 0x3d;
    ui_flashpages = fill_b2 (0x10000 / 256);
    uc_allow_full_page_bitstream = 1;
    enable_page_programming = 1;
    ui_sram_start_addr = fill_b2 0x100;
    eecr_address = fill_b2 0x1c;
  };
}
