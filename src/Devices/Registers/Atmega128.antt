-- ===== src/Devices/Registers/Atmega128.antt =====
-- src/ioreg.cc: atmega128_io_registers.
use jtag_js.Base.{List, [], ◌∷◌}
use jtag_js.Gdb.{IoReg}
use jtag_js.Devices.{reg, io_reg_rse}

abbrev pub atmega128_io_registers : List IoReg
atmega128_io_registers =
    reg "PINF" 0x20 0x00
    ∷ reg "PINE" 0x21 0x00
    ∷ reg "DDRE" 0x22 0x00
    ∷ reg "PORTE" 0x23 0x00
    ∷ reg "ADCL" 0x24 io_reg_rse
    ∷ reg "ADCH" 0x25 io_reg_rse
    ∷ reg "ADCSRA" 0x26 0x00
    ∷ reg "ADMUX" 0x27 0x00
    ∷ reg "ACSR" 0x28 0x00
    ∷ reg "UBRR0L" 0x29 0x00
    ∷ reg "UCSR0B" 0x2A 0x00
    ∷ reg "UCSR0A" 0x2B 0x00
    ∷ reg "UDR0" 0x2C io_reg_rse
    ∷ reg "SPCR" 0x2D 0x00
    ∷ reg "SPSR" 0x2E 0x00
    ∷ reg "SPDR" 0x2F 0x00
    ∷ reg "PIND" 0x30 0x00
    ∷ reg "DDRD" 0x31 0x00
    ∷ reg "PORTD" 0x32 0x00
    ∷ reg "PINC" 0x33 0x00
    ∷ reg "DDRC" 0x34 0x00
    ∷ reg "PORTC" 0x35 0x00
    ∷ reg "PINB" 0x36 0x00
    ∷ reg "DDRB" 0x37 0x00
    ∷ reg "PORTB" 0x38 0x00
    ∷ reg "PINA" 0x39 0x00
    ∷ reg "DDRA" 0x3A 0x00
    ∷ reg "PORTA" 0x3B 0x00
    ∷ reg "EECR" 0x3C 0x00
    ∷ reg "EEDR" 0x3D 0x00
    ∷ reg "EEARL" 0x3E 0x00
    ∷ reg "EEARH" 0x3F 0x00
    ∷ reg "SFIOR" 0x40 0x00
    ∷ reg "WDTCR" 0x41 0x00
    ∷ reg "OCDR" 0x42 0x00
    ∷ reg "OCR2" 0x43 0x00
    ∷ reg "TCNT2" 0x44 0x00
    ∷ reg "TCCR2" 0x45 0x00
    ∷ reg "ICR1L" 0x46 0x00
    ∷ reg "ICR1H" 0x47 0x00
    ∷ reg "OCR1BL" 0x48 0x00
    ∷ reg "OCR1BH" 0x49 0x00
    ∷ reg "OCR1AL" 0x4A 0x00
    ∷ reg "OCR1AH" 0x4B 0x00
    ∷ reg "TCNT1L" 0x4C 0x00
    ∷ reg "TCNT1H" 0x4D 0x00
    ∷ reg "TCCR1B" 0x4E 0x00
    ∷ reg "TCCR1A" 0x4F 0x00
    ∷ reg "ASSR" 0x50 0x00
    ∷ reg "OCR0" 0x51 0x00
    ∷ reg "TCNT0" 0x52 0x00
    ∷ reg "TCCR0" 0x53 0x00
    ∷ reg "MCUCSR" 0x54 0x00
    ∷ reg "MCUCR" 0x55 0x00
    ∷ reg "TIFR" 0x56 0x00
    ∷ reg "TIMSK" 0x57 0x00
    ∷ reg "EIFR" 0x58 0x00
    ∷ reg "EIMSK" 0x59 0x00
    ∷ reg "EICRB" 0x5A 0x00
    ∷ reg "RAMPZ" 0x5B 0x00
    ∷ reg "XDIV" 0x5C 0x00
    ∷ reg "SPL" 0x5D 0x00
    ∷ reg "SPH" 0x5E 0x00
    ∷ reg "SREG" 0x5F 0x00
    ∷ reg "DDRF" 0x61 0x00
    ∷ reg "PORTF" 0x62 0x00
    ∷ reg "PING" 0x63 0x00
    ∷ reg "DDRG" 0x64 0x00
    ∷ reg "PORTG" 0x65 0x00
    ∷ reg "SPMCSR" 0x68 0x00
    ∷ reg "EICRA" 0x6A 0x00
    ∷ reg "XMCRB" 0x6C 0x00
    ∷ reg "XMCRA" 0x6D 0x00
    ∷ reg "OSCCAL" 0x6F 0x00
    ∷ reg "TWBR" 0x70 0x00
    ∷ reg "TWSR" 0x71 0x00
    ∷ reg "TWAR" 0x72 0x00
    ∷ reg "TWDR" 0x73 0x00
    ∷ reg "TWCR" 0x74 0x00
    ∷ reg "OCR1CL" 0x78 0x00
    ∷ reg "OCR1CH" 0x79 0x00
    ∷ reg "TCCR1C" 0x7A 0x00
    ∷ reg "ETIFR" 0x7C 0x00
    ∷ reg "ETIMSK" 0x7D 0x00
    ∷ reg "ICR3L" 0x80 0x00
    ∷ reg "ICR3H" 0x81 0x00
    ∷ reg "OCR3CL" 0x82 0x00
    ∷ reg "OCR3CH" 0x83 0x00
    ∷ reg "OCR3BL" 0x84 0x00
    ∷ reg "OCR3BH" 0x85 0x00
    ∷ reg "OCR3AL" 0x86 0x00
    ∷ reg "OCR3AH" 0x87 0x00
    ∷ reg "TCNT3L" 0x88 0x00
    ∷ reg "TCNT3H" 0x89 0x00
    ∷ reg "TCCR3B" 0x8A 0x00
    ∷ reg "TCCR3A" 0x8B 0x00
    ∷ reg "TCCR3C" 0x8C 0x00
    ∷ reg "UBRR0H" 0x90 0x00
    ∷ reg "UCSR0C" 0x95 0x00
    ∷ reg "UBRR1H" 0x98 0x00
    ∷ reg "UBRR1L" 0x99 0x00
    ∷ reg "UCSR1B" 0x9A 0x00
    ∷ reg "UCSR1A" 0x9B 0x00
    ∷ reg "UDR1" 0x9C io_reg_rse
    ∷ reg "UCSR1C" 0x9D 0x00
    ∷ []
