-- ===== src/Devices/Registers/Iocan128.antt =====
-- src/ioreg.cc: iocan128_io_registers.
use jtag_js.Base.{List, [], ◌∷◌}
use jtag_js.Gdb.{IoReg}
use jtag_js.Devices.{reg, io_reg_rse}

abbrev pub iocan128_io_registers : List IoReg
iocan128_io_registers =
    reg "PINA" 0x20 0x00
    ∷ reg "DDRA" 0x21 0x00
    ∷ reg "PORTA" 0x22 0x00
    ∷ reg "PINB" 0x23 0x00
    ∷ reg "DDRB" 0x24 0x00
    ∷ reg "PORTB" 0x25 0x00
    ∷ reg "PINC" 0x26 0x00
    ∷ reg "DDRC" 0x27 0x00
    ∷ reg "PORTC" 0x28 0x00
    ∷ reg "PIND" 0x29 0x00
    ∷ reg "DDRD" 0x2A 0x00
    ∷ reg "PORTD" 0x2B 0x00
    ∷ reg "PINE" 0x2C 0x00
    ∷ reg "DDRE" 0x2D 0x00
    ∷ reg "PORTE" 0x2E 0x00
    ∷ reg "PINF" 0x2F 0x00
    ∷ reg "DDRF" 0x30 0x00
    ∷ reg "PORTF" 0x31 0x00
    ∷ reg "PING" 0x32 0x00
    ∷ reg "DDRG" 0x33 0x00
    ∷ reg "PORTG" 0x34 0x00
    ∷ reg "TIFR0" 0x35 0x00
    ∷ reg "TIFR1" 0x36 0x00
    ∷ reg "TIFR2" 0x37 0x00
    ∷ reg "TIFR3" 0x38 0x00
    ∷ reg "EIFR" 0x3C 0x00
    ∷ reg "EIMSK" 0x3D 0x00
    ∷ reg "GPIOR0" 0x3E 0x00
    ∷ reg "EECR" 0x3F 0x00
    ∷ reg "EEDR" 0x40 0x00
    ∷ reg "EEARL" 0x41 0x00
    ∷ reg "EEARH" 0x42 0x00
    ∷ reg "GTCCR" 0x43 0x00
    ∷ reg "TCCR0A" 0x44 0x00
    ∷ reg "TCNT0" 0x46 0x00
    ∷ reg "OCR0A" 0x47 0x00
    ∷ reg "GPIOR1" 0x4A 0x00
    ∷ reg "GPIOR2" 0x4B 0x00
    ∷ reg "SPCR" 0x4C 0x00
    ∷ reg "SPSR" 0x4D 0x00
    ∷ reg "SPDR" 0x4E 0x00
    ∷ reg "ACSR" 0x50 0x00
    ∷ reg "OCDR" 0x51 0x00
    ∷ reg "SMCR" 0x53 0x00
    ∷ reg "MCUSR" 0x54 0x00
    ∷ reg "MCUCR" 0x55 0x00
    ∷ reg "SPMCSR" 0x57 0x00
    ∷ reg "RAMPZ" 0x5B 0x00
    ∷ reg "SPL" 0x5D 0x00
    ∷ reg "SPH" 0x5E 0x00
    ∷ reg "SREG" 0x5F 0x00
    ∷ reg "WDTCR" 0x60 0x00
    ∷ reg "CLKPR" 0x61 0x00
    ∷ reg "OSCCAL" 0x66 0x00
    ∷ reg "EICRA" 0x69 0x00
    ∷ reg "EICRB" 0x6A 0x00
    ∷ reg "TIMSK0" 0x6E 0x00
    ∷ reg "TIMSK1" 0x6F 0x00
    ∷ reg "TIMSK2" 0x70 0x00
    ∷ reg "TIMSK3" 0x71 0x00
    ∷ reg "XMCRA" 0x74 0x00
    ∷ reg "XMCRB" 0x75 0x00
    ∷ reg "ADCL" 0x78 io_reg_rse
    ∷ reg "ADCH" 0x79 io_reg_rse
    ∷ reg "ADCSRA" 0x7A 0x00
    ∷ reg "ADCSRB" 0x7B 0x00
    ∷ reg "ADMUX" 0x7C 0x00
    ∷ reg "DIDR0" 0x7E 0x00
    ∷ reg "DIDR1" 0x7F 0x00
    ∷ reg "TCCR1A" 0x80 0x00
    ∷ reg "TCCR1B" 0x81 0x00
    ∷ reg "TCCR1C" 0x82 0x00
    ∷ reg "TCNT1L" 0x84 0x00
    ∷ reg "TCNT1H" 0x85 0x00
    ∷ reg "ICR1L" 0x86 0x00
    ∷ reg "ICR1H" 0x87 0x00
    ∷ reg "OCR1AL" 0x88 0x00
    ∷ reg "OCR1AH" 0x89 0x00
    ∷ reg "OCR1BL" 0x8A 0x00
    ∷ reg "OCR1BH" 0x8B 0x00
    ∷ reg "OCR1CL" 0x8C 0x00
    ∷ reg "OCR1CH" 0x8D 0x00
    ∷ reg "TCCR3A" 0x90 0x00
    ∷ reg "TCCR3B" 0x91 0x00
    ∷ reg "TCCR3C" 0x92 0x00
    ∷ reg "TCNT3L" 0x94 0x00
    ∷ reg "TCNT3H" 0x95 0x00
    ∷ reg "ICR3L" 0x96 0x00
    ∷ reg "ICR3H" 0x97 0x00
    ∷ reg "OCR3AL" 0x98 0x00
    ∷ reg "OCR3AH" 0x99 0x00
    ∷ reg "OCR3BL" 0x9A 0x00
    ∷ reg "OCR3BH" 0x9B 0x00
    ∷ reg "OCR3CL" 0x9C 0x00
    ∷ reg "OCR3CH" 0x9D 0x00
    ∷ reg "TCCR2A" 0xB0 0x00
    ∷ reg "TCNT2" 0xB2 0x00
    ∷ reg "OCR2A" 0xB3 0x00
    ∷ reg "ASSR" 0xB6 0x00
    ∷ reg "TWBR" 0xB8 0x00
    ∷ reg "TWSR" 0xB9 0x00
    ∷ reg "TWAR" 0xBA 0x00
    ∷ reg "TWDR" 0xBB 0x00
    ∷ reg "TWCR" 0xBC 0x00
    ∷ reg "UCSR0A" 0xC0 0x00
    ∷ reg "UCSR0B" 0xC1 0x00
    ∷ reg "UCSR0C" 0xC2 0x00
    ∷ reg "UBRR0L" 0xC4 0x00
    ∷ reg "UBRR0H" 0xC5 0x00
    ∷ reg "UDR0" 0xC6 io_reg_rse
    ∷ reg "UCSR1A" 0xC8 0x00
    ∷ reg "UCSR1B" 0xC9 0x00
    ∷ reg "UCSR1C" 0xCA 0x00
    ∷ reg "UBRR1L" 0xCC 0x00
    ∷ reg "UBRR1H" 0xCD 0x00
    ∷ reg "UDR1" 0xCE io_reg_rse
    ∷ reg "CANGCON" 0xD8 0x00
    ∷ reg "CANGSTA" 0xD9 0x00
    ∷ reg "CANGIT" 0xDA 0x00
    ∷ reg "CANGIE" 0xDB 0x00
    ∷ reg "CANEN2" 0xDC 0x00
    ∷ reg "CANEN1" 0xDD 0x00
    ∷ reg "CANIE2" 0xDE 0x00
    ∷ reg "CANIE1" 0xDF 0x00
    ∷ reg "CANSIT2" 0xE0 0x00
    ∷ reg "CANSIT1" 0xE1 0x00
    ∷ reg "CANBT1" 0xE2 0x00
    ∷ reg "CANBT2" 0xE3 0x00
    ∷ reg "CANBT3" 0xE4 0x00
    ∷ reg "CANTCON" 0xE5 0x00
    ∷ reg "CANTIML" 0xE6 0x00
    ∷ reg "CANTIMH" 0xE7 0x00
    ∷ reg "CANTTCL" 0xE8 0x00
    ∷ reg "CANTTCH" 0xE9 0x00
    ∷ reg "CANTEC" 0xEA 0x00
    ∷ reg "CANREC" 0xEB 0x00
    ∷ reg "CANHPMOB" 0xEC 0x00
    ∷ reg "CANPAGE" 0xED 0x00
    ∷ reg "CANSTMOB" 0xEE 0x00
    ∷ reg "CANCDMOB" 0xEF 0x00
    ∷ reg "CANIDT4" 0xF0 0x00
    ∷ reg "CANIDT3" 0xF1 0x00
    ∷ reg "CANIDT2" 0xF2 0x00
    ∷ reg "CANIDT1" 0xF3 0x00
    ∷ reg "CANIDM4" 0xF4 0x00
    ∷ reg "CANIDM3" 0xF5 0x00
    ∷ reg "CANIDM2" 0xF6 0x00
    ∷ reg "CANIDM1" 0xF7 0x00
    ∷ reg "CANSTML" 0xF8 0x00
    ∷ reg "CANSTMH" 0xF9 0x00
    ∷ reg "CANMSG" 0xFA 0x00
    ∷ []
