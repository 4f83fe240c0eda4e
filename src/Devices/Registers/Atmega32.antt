-- ===== src/Devices/Registers/Atmega32.antt =====
-- src/ioreg.cc: atmega32_io_registers.
use jtag_js.Base.{List, [], ◌∷◌}
use jtag_js.Gdb.{IoReg}
use jtag_js.Devices.{reg, io_reg_rse}

abbrev pub atmega32_io_registers : List IoReg
atmega32_io_registers =
    reg "TWBR" 0x20 0x00
    ∷ reg "TWSR" 0x21 0x00
    ∷ reg "TWAR" 0x22 0x00
    ∷ reg "TWDR" 0x23 0x00
    ∷ reg "ADCL" 0x24 io_reg_rse
    ∷ reg "ADCH" 0x25 io_reg_rse
    ∷ reg "ADCSRA" 0x26 0x00
    ∷ reg "ADMUX" 0x27 0x00
    ∷ reg "ACSR" 0x28 0x00
    ∷ reg "UBRRL" 0x29 0x00
    ∷ reg "UCSRB" 0x2A 0x00
    ∷ reg "UCSRA" 0x2B 0x00
    ∷ reg "UDR" 0x2C io_reg_rse
    ∷ reg "SPCR" 0x2D 0x00
    ∷ reg "SPSR" 0x2E 0x00
    ∷ reg "SPDR" 0x2F 0x00
    ∷ reg "PIND" 0x30 0x00
    ∷ reg "DDRD" 0x31 0x00
    ∷ reg "PORTD" 0x32 0x00
    ∷ reg "PINC" 0x33 0x00
    ∷ reg "DDRC" 0x34 0x00
    ∷ reg "PORTC" 0x35 0x00
    ∷ reg "PINB" 0x36 0x00
    ∷ reg "DDRB" 0x37 0x00
    ∷ reg "PORTB" 0x38 0x00
    ∷ reg "PINA" 0x39 0x00
    ∷ reg "DDRA" 0x3A 0x00
    ∷ reg "PORTA" 0x3B 0x00
    ∷ reg "EECR" 0x3C 0x00
    ∷ reg "EEDR" 0x3D 0x00
    ∷ reg "EEARL" 0x3E 0x00
    ∷ reg "EEARH" 0x3F 0x00
    ∷ reg "UBRR0H -- UCSR0C" 0x40 0x00
    ∷ reg "WDTCR" 0x41 0x00
    ∷ reg "ASSR" 0x42 0x00
    ∷ reg "OCR2" 0x43 0x00
    ∷ reg "TCNT2" 0x44 0x00
    ∷ reg "TCCR2" 0x45 0x00
    ∷ reg "ICR1L" 0x46 0x00
    ∷ reg "ICR1H" 0x47 0x00
    ∷ reg "OCR1BL" 0x48 0x00
    ∷ reg "OCR1BH" 0x49 0x00
    ∷ reg "OCR1AL" 0x4A 0x00
    ∷ reg "OCR1AH" 0x4B 0x00
    ∷ reg "TCNT1L" 0x4C 0x00
    ∷ reg "TCNT1H" 0x4D 0x00
    ∷ reg "TCCR1B" 0x4E 0x00
    ∷ reg "TCCR1A" 0x4F 0x00
    ∷ reg "SFIOR" 0x50 0x00
    ∷ reg "OSCCAL" 0x51 0x00
    ∷ reg "TCNT0" 0x52 0x00
    ∷ reg "TCCR0" 0x53 0x00
    ∷ reg "MCUCSR" 0x54 0x00
    ∷ reg "MCUCR" 0x55 0x00
    ∷ reg "TWCR" 0x56 0x00
    ∷ reg "SPMCR" 0x57 0x00
    ∷ reg "TIFR" 0x58 0x00
    ∷ reg "TIMSK" 0x59 0x00
    ∷ reg "GIFR" 0x5A 0x00
    ∷ reg "GIMSK" 0x5B 0x00
    ∷ reg "OCR0" 0x5C 0x00
    ∷ reg "SPL" 0x5D 0x00
    ∷ reg "SPH" 0x5E 0x00
    ∷ reg "SREG" 0x5F 0x00
    ∷ []
