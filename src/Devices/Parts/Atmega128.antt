-- ===== src/Devices/Parts/Atmega128.antt =====
-- src/devdescr.cc, the entries from atmega128 to atmega324p. What is not listed of a description is 0.
use jtag_js.Base.{◌*◌, ◌/◌, false, none, some, [], ◌∷◌, zeros, codes, hexes, ◌++◌}
use jtag_js.Devices.Registers.Atmega128.{atmega128_io_registers}
use jtag_js.Devices.Registers.Iocan128.{iocan128_io_registers}
use jtag_js.Devices.{
  DeviceDef, fill_b2, fill_b4, no_mk1_desc, no_mk2_desc, devfl_none, devfl_no_softbp,
  devfl_mkii_only, jtag_c_set_device_descriptor,
}

abbrev pub atmega128 : DeviceDef
atmega128 = record {
  name = some (codes "atmega128");
  device_id = 0x9702;
  flash_page_size = 256;
  flash_page_count = 512;
  eeprom_page_size = 8;
  eeprom_page_count = 512;
  vectors_end = 0x8c;
  device_flags = devfl_no_softbp;
  io_reg_defs = some atmega128_io_registers;
  is_xmega = false;
  dev_desc1 = record {
    cmd = jtag_c_set_device_descriptor;
    rd = hexes "CF 2F FF FF FF FF FF FF";
    wr = hexes "CF 27 FF FF FF FF FF FE";
    sh_rd = zeros 8;
    sh_wr = zeros 8;
    ext_rd = hexes "3E B5 1F 37 FF 1F 21 2F" ++ zeros 12;
    ext_wr = hexes "3E B5 0F 27 FF 1F 21 27" ++ zeros 12;
    ext_sh_rd = zeros 20;
    ext_sh_wr = zeros 20;
    idr_addr = 0x22;
    spmcr_addr = 0x68;
    rampz_addr = 0x3B;
    flash_pg_sz = 0 ∷ 1 ∷ [];
    eeprom_pg_sz = 8;
    boot_addr = 0x00 ∷ 0xFE ∷ 0x00 ∷ 0x00 ∷ [];
    last_ext_io_addr = 0x9D;
    eom = 0x20 ∷ 0x20 ∷ [];
  };
  dev_desc2 = record no_mk2_desc {
    uc_read_io = hexes "FF 6F FF FF FB FF FF FF";
    uc_write_io = hexes "8C 26 B6 FD FB FF BF FE";
    uc_read_ext_io = hexes "3E B5 1F 37 FF 1F 21 2F" ++ zeros 44;
    uc_write_ext_io = hexes "36 B5 0F 27 FF 1F 21 27" ++ zeros 44;
    uc_idr_address = 0x22;
    uc_spmcr_address = 0x68;
    uc_rampz_address = 0x3B;
    ui_flash_page_size = fill_b2 256;
    uc_eeprom_page_size = 8;
    ul_boot_address = fill_b4 0xFE00;
    ui_upper_ext_io_loc = fill_b2 0x9D;
    ul_flash_size = fill_b4 0x20000;
    uc_sph_addr = 0x3e;
    uc_spl_addr = 0x3d;
    ui_flashpages = fill_b2 (0x20000 / 256);
    uc_allow_full_page_bitstream = 1;
    enable_page_programming = 1;
    ui_sram_start_addr = fill_b2 0x100;
    eecr_address = fill_b2 0x1c;
  };
}

abbrev pub at90can128 : DeviceDef
at90can128 = record {
  name = some (codes "at90can128");
  device_id = 0x9781;
  flash_page_size = 256;
  flash_page_count = 512;
  eeprom_page_size = 8;
  eeprom_page_count = 512;
  vectors_end = 0x94;
  device_flags = devfl_none;
  io_reg_defs = some iocan128_io_registers;
  is_xmega = false;
  dev_desc1 = record {
    cmd = jtag_c_set_device_descriptor;
    rd = hexes "FF FF FF F1 DF 7C BB E8";
    wr = hexes "FF FF FF F1 DF 7C BB E8";
    sh_rd = zeros 8;
    sh_wr = zeros 8;
    ext_rd = hexes "43 C3 33 BF F7 3F F7 3F 00 00 4D 1F 77 77 00 FF FF FF FF 07";
    ext_wr = hexes "43 C3 33 BC 77 77 F7 3F 00 00 4D 1F 00 00 00 CD 3C F0 FF 04";
    ext_sh_rd = zeros 20;
    ext_sh_wr = zeros 20;
    idr_addr = 0x22;
    spmcr_addr = 0x57;
    rampz_addr = 0x3B;
    flash_pg_sz = 0 ∷ 1 ∷ [];
    eeprom_pg_sz = 8;
    boot_addr = 0x00 ∷ 0xFE ∷ 0x00 ∷ 0x00 ∷ [];
    last_ext_io_addr = 0xFA;
    eom = 0x20 ∷ 0x20 ∷ [];
  };
  dev_desc2 = record no_mk2_desc {
    uc_read_io = hexes "FF FF FF F1 DF 3C B9 E8";
    uc_write_io = hexes "B6 6D 1B E0 DF 1C B8 E8";
    uc_read_ext_io =
        hexes "43 C6 33 DF F7 3F F7 3F 00 00 4D 1F 37 37 00 FF FF FF FF 07" ++ zeros 32;
    uc_write_ext_io =
        hexes "43 C6 33 D8 F7 3F F7 3F 00 00 4D 0F 36 36 00 C9 3C F0 FF 04" ++ zeros 32;
    uc_idr_address = 0x31;
    uc_spmcr_address = 0x57;
    uc_rampz_address = 0x3B;
    ui_flash_page_size = fill_b2 256;
    uc_eeprom_page_size = 8;
    ul_boot_address = fill_b4 0xFE00;
    ui_upper_ext_io_loc = fill_b2 0xFA;
    ul_flash_size = fill_b4 0x20000;
    uc_sph_addr = 0x3e;
    uc_spl_addr = 0x3d;
    ui_flashpages = fill_b2 (0x20000 / 256);
    enable_page_programming = 1;
    ui_sram_start_addr = fill_b2 0x100;
    eecr_address = fill_b2 0x1f;
  };
}

abbrev pub atmega164p : DeviceDef
atmega164p = record {
  name = some (codes "atmega164p");
  device_id = 0x940a;
  flash_page_size = 128;
  flash_page_count = 128;
  eeprom_page_size = 4;
  eeprom_page_count = 128;
  vectors_end = 31 * 4;
  device_flags = devfl_mkii_only;
  io_reg_defs = none;
  is_xmega = false;
  dev_desc1 = no_mk1_desc 0;
  dev_desc2 = record no_mk2_desc {
    uc_read_io = hexes "FF 0F E0 F8 FF 3D B9 E8";
    uc_read_io_shadow = hexes "00 00 00 00 01" ++ zeros 3;
    uc_write_io = hexes "B6 0D 00 E0 FF 1D B8 E8";
    uc_write_io_shadow = hexes "00 00 00 00 01" ++ zeros 3;
    uc_read_ext_io = hexes "53 FB 09 DF F3 0F 00 00 00 00 5F 3F 37" ++ zeros 39;
    uc_write_ext_io = hexes "51 FB 09 D8 F3 0F 00 00 00 00 5F 2F 36" ++ zeros 39;
    uc_idr_address = 0x31;
    uc_spmcr_address = 0x57;
    uc_rampz_address = 0x3B;
    ui_flash_page_size = fill_b2 128;
    uc_eeprom_page_size = 4;
    ul_boot_address = fill_b4 0x1f80;
    ui_upper_ext_io_loc = fill_b2 0x00C6;
    ul_flash_size = fill_b4 16384;
    uc_sph_addr = 0x3E;
    uc_spl_addr = 0x3D;
    ui_flashpages = fill_b2 (16384 / 128);
    enable_page_programming = 1;
    ui_sram_start_addr = fill_b2 0x100;
    eecr_address = 0x1F ∷ 0 ∷ [];
  };
}

abbrev pub atmega324p : DeviceDef
atmega324p = record {
  name = some (codes "atmega324p");
  device_id = 0x9508;
  flash_page_size = 128;
  flash_page_count = 256;
  eeprom_page_size = 4;
  eeprom_page_count = 256;
  vectors_end = 31 * 4;
  device_flags = devfl_mkii_only;
  io_reg_defs = none;
  is_xmega = false;
  dev_desc1 = no_mk1_desc 0;
  dev_desc2 = record no_mk2_desc {
    uc_read_io = hexes "FF 0F E0 F8 FF 3D B9 E8";
    uc_read_io_shadow = hexes "00 00 00 00 01" ++ zeros 3;
    uc_write_io = hexes "B6 0D 00 E0 FF 1D B8 E8";
    uc_write_io_shadow = hexes "00 00 00 00 01" ++ zeros 3;
    uc_read_ext_io = hexes "53 FB 09 DF F3 0F 00 00 00 00 5F 3F 37" ++ zeros 39;
    uc_write_ext_io = hexes "51 FB 09 D8 F3 0F 00 00 00 00 5F 2F 36" ++ zeros 39;
    uc_idr_address = 0x31;
    uc_spmcr_address = 0x57;
    uc_rampz_address = 0x3B;
    ui_flash_page_size = fill_b2 128;
    uc_eeprom_page_size = 4;
    ul_boot_address = fill_b4 0x3f00;
    ui_upper_ext_io_loc = fill_b2 0x00C6;
    ul_flash_size = fill_b4 32768;
    uc_sph_addr = 0x3E;
    uc_spl_addr = 0x3D;
    ui_flashpages = fill_b2 (32768 / 128);
    enable_page_programming = 1;
    ui_sram_start_addr = fill_b2 0x100;
    eecr_address = 0x1F ∷ 0 ∷ [];
  };
}
