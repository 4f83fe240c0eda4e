-- ===== src/Devices/Registers/Atmega169.antt =====
-- src/ioreg.cc: atmega169_io_registers.
use jtag_js.Base.{List, [], ◌∷◌}
use jtag_js.Gdb.{IoReg}
use jtag_js.Devices.{reg, io_reg_rse}

abbrev pub atmega169_io_registers : List IoReg
atmega169_io_registers =
    reg "PINA" 0x20 0x00
    ∷ reg "DDRA" 0x21 0x00
    ∷ reg "PORTA" 0x22 0x00
    ∷ reg "PINB" 0x23 0x00
    ∷ reg "DDRB" 0x24 0x00
    ∷ reg "PORTB" 0x25 0x00
    ∷ reg "PINC" 0x26 0x00
    ∷ reg "DDRC" 0x27 0x00
    ∷ reg "PORTC" 0x28 0x00
    ∷ reg "PIND" 0x29 0x00
    ∷ reg "DDRD" 0x2A 0x00
    ∷ reg "PORTD" 0x2B 0x00
    ∷ reg "PINE" 0x2C 0x00
    ∷ reg "DDRE" 0x2D 0x00
    ∷ reg "PORTE" 0x2E 0x00
    ∷ reg "PINF" 0x2F 0x00
    ∷ reg "DDRF" 0x30 0x00
    ∷ reg "PORTF" 0x31 0x00
    ∷ reg "PING" 0x32 0x00
    ∷ reg "DDRG" 0x33 0x00
    ∷ reg "PORTG" 0x34 0x00
    ∷ reg "TIFR0" 0x35 0x00
    ∷ reg "TIFR1" 0x36 0x00
    ∷ reg "TIFR2" 0x37 0x00
    ∷ reg "EIFR" 0x3C 0x00
    ∷ reg "EIMSK" 0x3D 0x00
    ∷ reg "GPIOR0" 0x3E 0x00
    ∷ reg "EECR" 0x3F 0x00
    ∷ reg "EEDR" 0x40 0x00
    ∷ reg "EEARL" 0x41 0x00
    ∷ reg "EEARH" 0x42 0x00
    ∷ reg "GTCCR" 0x43 0x00
    ∷ reg "TCCR0A" 0x44 0x00
    ∷ reg "TCNT0" 0x46 0x00
    ∷ reg "OCR0A" 0x47 0x00
    ∷ reg "GPIOR1" 0x4A 0x00
    ∷ reg "GPIOR2" 0x4B 0x00
    ∷ reg "SPCR" 0x4C 0x00
    ∷ reg "SPSR" 0x4D 0x00
    ∷ reg "SPDR" 0x4E 0x00
    ∷ reg "ACSR" 0x50 0x00
    ∷ reg "OCDR" 0x51 0x00
    ∷ reg "SMCR" 0x53 0x00
    ∷ reg "MCUCSR" 0x54 0x00
    ∷ reg "MCUCR" 0x55 0x00
    ∷ reg "SPMCSR" 0x57 0x00
    ∷ reg "SPL" 0x5D 0x00
    ∷ reg "SPH" 0x5E 0x00
    ∷ reg "SREG" 0x5F 0x00
    ∷ reg "WDTCR" 0x60 0x00
    ∷ reg "CLKPR" 0x61 0x00
    ∷ reg "OSCCAL" 0x66 0x00
    ∷ reg "EICRA" 0x69 0x00
    ∷ reg "PCMSK0" 0x6B 0x00
    ∷ reg "PCMSK1" 0x6C 0x00
    ∷ reg "TIMSK0" 0x6E 0x00
    ∷ reg "TIMSK1" 0x6F 0x00
    ∷ reg "TIMSK2" 0x70 0x00
    ∷ reg "ADCL" 0x78 io_reg_rse
    ∷ reg "ADCH" 0x79 io_reg_rse
    ∷ reg "ADCSRA" 0x7A 0x00
    ∷ reg "ADCSRB" 0x7B 0x00
    ∷ reg "ADMUX" 0x7C 0x00
    ∷ reg "DIDR0" 0x7E 0x00
    ∷ reg "DIDR1" 0x7F 0x00
    ∷ reg "TCCR1A" 0x80 0x00
    ∷ reg "TCCR1B" 0x81 0x00
    ∷ reg "TCCR1C" 0x82 0x00
    ∷ reg "TCNT1L" 0x84 0x00
    ∷ reg "TCNT1H" 0x85 0x00
    ∷ reg "ICR1L" 0x86 0x00
    ∷ reg "ICR1H" 0x87 0x00
    ∷ reg "OCR1AL" 0x88 0x00
    ∷ reg "OCR1AH" 0x89 0x00
    ∷ reg "OCR1BL" 0x8A 0x00
    ∷ reg "OCR1BH" 0x8B 0x00
    ∷ reg "TCCR2A" 0xB0 0x00
    ∷ reg "TCNT2" 0xB2 0x00
    ∷ reg "OCR2A" 0xB3 0x00
    ∷ reg "ASSR" 0xB6 0x00
    ∷ reg "USICR" 0xB8 0x00
    ∷ reg "USISR" 0xB9 0x00
    ∷ reg "USIDR" 0xBA 0x00
    ∷ reg "UCSRA" 0xC0 0x00
    ∷ reg "UCSRB" 0xC1 0x00
    ∷ reg "UCSRC" 0xC2 0x00
    ∷ reg "UBRRL" 0xC4 0x00
    ∷ reg "UBRRH" 0xC5 0x00
    ∷ reg "UDR" 0xC6 io_reg_rse
    ∷ reg "LCDCRA" 0xE4 0x00
    ∷ reg "LCDCRB" 0xE5 0x00
    ∷ reg "LCDFRR" 0xE6 0x00
    ∷ reg "LCDCCR" 0xE7 0x00
    ∷ reg "LCDDR0" 0xEC 0x00
    ∷ reg "LCDDR1" 0xED 0x00
    ∷ reg "LCDDR2" 0xEE 0x00
    ∷ reg "LCDDR3" 0xEF 0x00
    ∷ reg "LCDDR5" 0xF1 0x00
    ∷ reg "LCDDR6" 0xF2 0x00
    ∷ reg "LCDDR7" 0xF3 0x00
    ∷ reg "LCDDR8" 0xF4 0x00
    ∷ reg "LCDDR10" 0xF6 0x00
    ∷ reg "LCDDR11" 0xF7 0x00
    ∷ reg "LCDDR12" 0xF8 0x00
    ∷ reg "LCDDR13" 0xF9 0x00
    ∷ reg "LCDDR15" 0xFB 0x00
    ∷ reg "LCDDR16" 0xFC 0x00
    ∷ reg "LCDDR17" 0xFD 0x00
    ∷ reg "LCDDR18" 0xFE 0x00
    ∷ []
