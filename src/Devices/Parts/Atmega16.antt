-- ===== src/Devices/Parts/Atmega16.antt =====
-- src/devdescr.cc, the entries from atmega16 to atmega169. What is not listed of a description is 0.
use jtag_js.Base.{◌/◌, false, some, [], ◌∷◌, zeros, codes, hexes, ◌++◌}
use jtag_js.Devices.Registers.Atmega162.{atmega162_io_registers}
use jtag_js.Devices.Registers.Atmega169.{atmega169_io_registers}
use jtag_js.Devices.Registers.Atmega16.{atmega16_io_registers}
use jtag_js.Devices.{
  DeviceDef, fill_b2, fill_b4, no_mk2_desc, devfl_none, jtag_c_set_device_descriptor,
}

abbrev pub atmega16 : DeviceDef
atmega16 = record {
  name = some (codes "atmega16");
  device_id = 0x9403;
  flash_page_size = 128;
  flash_page_count = 128;
  eeprom_page_size = 4;
  eeprom_page_count = 128;
  vectors_end = 0x54;
  device_flags = devfl_none;
  io_reg_defs = some atmega16_io_registers;
  is_xmega = false;
  dev_desc1 = record {
    cmd = jtag_c_set_device_descriptor;
    rd = hexes "CF AF FF FF FE FF FF FF";
    wr = hexes "87 26 FF EF FE FF 3F FA";
    sh_rd = hexes "00 00 00 00 00 2F" ++ zeros 2;
    sh_wr = hexes "00 00 00 00 00 2F" ++ zeros 2;
    ext_rd = zeros 20;
    ext_wr = zeros 20;
    ext_sh_rd = zeros 20;
    ext_sh_wr = zeros 20;
    idr_addr = 0x31;
    spmcr_addr = 0x57;
    rampz_addr = 0x00;
    flash_pg_sz = 128 ∷ 0 ∷ [];
    eeprom_pg_sz = 0;
    boot_addr = 0x80 ∷ 0x1F ∷ 0x00 ∷ 0x00 ∷ [];
    last_ext_io_addr = 0;
    eom = 0x20 ∷ 0x20 ∷ [];
  };
  dev_desc2 = record no_mk2_desc {
    uc_read_io = hexes "FF 6F FF FF FE FF FD FF";
    uc_read_io_shadow = hexes "00 00 00 00 01" ++ zeros 3;
    uc_write_io = hexes "8F 26 B6 FD FE FF BD FA";
    uc_write_io_shadow = hexes "00 00 00 00 01" ++ zeros 3;
    uc_idr_address = 0x31;
    uc_spmcr_address = 0x57;
    ui_flash_page_size = fill_b2 128;
    uc_eeprom_page_size = 4;
    ul_boot_address = fill_b4 0x1F80;
    ul_flash_size = fill_b4 0x4000;
    uc_sph_addr = 0x3e;
    uc_spl_addr = 0x3d;
    ui_flashpages = fill_b2 (0x4000 / 128);
    uc_allow_full_page_bitstream = 1;
    enable_page_programming = 1;
    ui_sram_start_addr = fill_b2 0x60;
    eecr_address = fill_b2 0x1c;
  };
}

abbrev pub atmega162 : DeviceDef
atmega162 = record {
  name = some (codes "atmega162");
  device_id = 0x9404;
  flash_page_size = 128;
  flash_page_count = 128;
  eeprom_page_size = 4;
  eeprom_page_count = 128;
  vectors_end = 0x70;
  device_flags = devfl_none;
  io_reg_defs = some atmega162_io_registers;
  is_xmega = false;
  dev_desc1 = record {
    cmd = jtag_c_set_device_descriptor;
    rd = hexes "F7 6F FF FF FF FF FF FF";
    wr = hexes "F3 66 FF FF FF FF FF FA";
    sh_rd = zeros 8;
    sh_wr = zeros 8;
    ext_rd = hexes "02 18 00 30 F3 0F" ++ zeros 14;
    ext_wr = hexes "02 18 00 20 F3 0F" ++ zeros 14;
    ext_sh_rd = zeros 20;
    ext_sh_wr = zeros 20;
    idr_addr = 0x04;
    spmcr_addr = 0x57;
    rampz_addr = 0x00;
    flash_pg_sz = 128 ∷ 0 ∷ [];
    eeprom_pg_sz = 4;
    boot_addr = 0x80 ∷ 0x1F ∷ 0x00 ∷ 0x00 ∷ [];
    last_ext_io_addr = 0x8B;
    eom = 0x20 ∷ 0x20 ∷ [];
  };
  dev_desc2 = record no_mk2_desc {
    uc_read_io = hexes "E7 6F FF FF FE FF FF EF";
    uc_read_io_shadow = hexes "C3 26 B6 FD FE FF FF EA";
    uc_write_io = hexes "00 00 00 00 01 00 00 10";
    uc_write_io_shadow = hexes "00 00 00 00 01 00 00 10";
    uc_idr_address = 0x04;
    uc_spmcr_address = 0x57;
    ui_flash_page_size = fill_b2 128;
    uc_eeprom_page_size = 4;
    ul_boot_address = fill_b4 0x1F80;
    ui_upper_ext_io_loc = fill_b2 0xBB;
    ul_flash_size = fill_b4 0x4000;
    uc_sph_addr = 0x3e;
    uc_spl_addr = 0x3d;
    ui_flashpages = fill_b2 (0x4000 / 128);
    uc_allow_full_page_bitstream = 1;
    enable_page_programming = 1;
    ui_sram_start_addr = fill_b2 0x100;
    eecr_address = fill_b2 0x1c;
  };
}

abbrev pub atmega169 : DeviceDef
atmega169 = record {
  name = some (codes "atmega169");
  device_id = 0x9405;
  flash_page_size = 128;
  flash_page_count = 128;
  eeprom_page_size = 4;
  eeprom_page_count = 128;
  vectors_end = 0x5c;
  device_flags = devfl_none;
  io_reg_defs = some atmega169_io_registers;
  is_xmega = false;
  dev_desc1 = record {
    cmd = jtag_c_set_device_descriptor;
    rd = hexes "FF FF FF F0 DF 3C BB E0";
    wr = hexes "B6 6D 1B E0 DF 3C BA E0";
    sh_rd = zeros 8;
    sh_wr = zeros 8;
    ext_rd = hexes "43 DA 00 FF F7 0F 00 00 00 00 4D 07 37 00 00 00 F0 F0 DE 7B";
    ext_wr = hexes "43 DA 00 FF F7 0F 00 00 00 00 4D 05 36 00 00 00 E0 F0 DE 7B";
    ext_sh_rd = zeros 20;
    ext_sh_wr = zeros 20;
    idr_addr = 0x31;
    spmcr_addr = 0x57;
    rampz_addr = 0x00;
    flash_pg_sz = 128 ∷ 0 ∷ [];
    eeprom_pg_sz = 4;
    boot_addr = 0x80 ∷ 0x1F ∷ 0x00 ∷ 0x00 ∷ [];
    last_ext_io_addr = 0xFE;
    eom = 0x20 ∷ 0x20 ∷ [];
  };
  dev_desc2 = record no_mk2_desc {
    uc_read_io = hexes "FF FF FF F0 DF 3C B9 E0";
    uc_write_io = hexes "B6 6D 1B E0 DF 1C B8 E0";
    uc_read_ext_io =
        hexes "53 DA 01 DF F7 0F 00 00 00 00 4D 07 37 00 00 00 F0 F0 DE 7B" ++ zeros 32;
    uc_write_ext_io =
        hexes "53 DA 01 D8 F7 0F 00 00 00 00 4D 05 36 00 00 00 E0 F0 DE 7B" ++ zeros 32;
    uc_idr_address = 0x31;
    uc_spmcr_address = 0x57;
    ui_flash_page_size = fill_b2 128;
    uc_eeprom_page_size = 4;
    ul_boot_address = fill_b4 0x1F80;
    ui_upper_ext_io_loc = fill_b2 0xFE;
    ul_flash_size = fill_b4 0x4000;
    uc_sph_addr = 0x3e;
    uc_spl_addr = 0x3d;
    ui_flashpages = fill_b2 (0x4000 / 128);
    uc_allow_full_page_bitstream = 1;
    enable_page_programming = 1;
    ui_sram_start_addr = fill_b2 0x100;
    eecr_address = fill_b2 0x1f;
  };
}
