-- ===== src/Io/Panel.antt =====
-- tools/qemu/hw/ldd/io.c: the text of one panel frame, as the bytes that are sent.
use Prim.Native.String.{String}
use Prim.Native.Char.{code}
use linux_device_driver.Prelude.{
  ℕ, zero, suc, ◌+◌, ◌-◌, ◌/◌, ◌%◌, Bool, ◌&&◌, List, [], ◌∷◌, ◌++◌, ltb, leb, ◌≡◌, refl, ◌==◌,
  if◌then◌else◌, length, replicate,
}
use linux_device_driver.Prelude.Bits.{test_bit}
use linux_device_driver.Io.State.{Io, Answer, Effect, rx_ready, irq_en, loopback}

-- The bytes of an ASCII text.
abbrev ascii : String → List ℕ
ascii String.[] = []
ascii (String.◌∷◌ c s) = code c ∷ ascii s

abbrev esc : List ℕ
esc = 0x1b ∷ []

-- `LDD_IO_LED_ON` and `LDD_IO_LED_OFF`
led_on : List ℕ
led_on = esc ++ (ascii "[1;32m" ++ (0xe2 ∷ 0x97 ∷ 0x8f ∷ (esc ++ ascii "[0m")))

led_off : List ℕ
led_off = esc ++ (ascii "[90m" ++ (0xe2 ∷ 0x97 ∷ 0x8b ∷ (esc ++ ascii "[0m")))

-- `ldd_io_bit`
bit_led : Bool → List ℕ
unfolding led_on led_off
bit_led on = if on then led_on else led_off

-- `ldd_io_append_leds`: the loop at `i = n - 1`
leds_from : ℕ → ℕ → List ℕ
unfolding bit_led
leds_from zero v = []
leds_from (suc i) v =
    let rest = leds_from i v in bit_led (test_bit v i) ++ (if i == 0 then rest else b' ' ∷ rest)

leds : ℕ → List ℕ
unfolding leds_from
leds v = leds_from 8 v

-- The digit of `%x` for a value below 16.
digit : ℕ → ℕ
digit d = if ltb d 10 then b'0' + d else b'a' + (d - 10)

-- `%u` and `%x`: the digits of a number in a base, of as many as the fuel allows.
number_from : ℕ → ℕ → ℕ → List ℕ
unfolding digit
number_from zero base n = []
number_from (suc fuel) base n =
    let rest = number_from fuel base (n / base) in
    if ltb n base then digit n ∷ [] else rest ++ (digit (n % base) ∷ [])

-- A `uint64_t` has at most 20 digits in base 10 and 16 in base 16.
decimal : ℕ → List ℕ
unfolding number_from
decimal n = number_from 20 10 n

hex : ℕ → List ℕ
unfolding number_from
hex n = ascii "0x" ++ number_from 16 16 n

-- `0x%02x` of a byte
hex_byte : ℕ → List ℕ
unfolding digit
hex_byte v = ascii "0x" ++ (digit (v / 16) ∷ digit (v % 16) ∷ [])

spaces : ℕ → List ℕ
spaces n = replicate n b' '

abbrev end_line : List ℕ
end_line = esc ++ (ascii "[K" ++ (0x0d ∷ 0x0a ∷ []))

rule_from : ℕ → List ℕ
rule_from zero = end_line
rule_from (suc n) = 0xe2 ∷ 0x94 ∷ 0x80 ∷ rule_from n

rule : List ℕ
unfolding rule_from
rule = b' ' ∷ rule_from 32

-- `ldd_io_append_row`
row : List ℕ → List ℕ → ℕ → List ℕ → List ℕ
unfolding spaces
row label content width value =
    b' '
    ∷ (label
        ++ (spaces (11 - length label)
            ++ (content ++ (spaces (17 - width) ++ (value ++ end_line)))))

header : Io → List ℕ
unfolding hex decimal
header s =
    (if s.mmio
      then ascii " ldd-io  mmio " ++ hex s.mmiobase
      else ascii " ldd-io  port " ++ hex s.iobase)
    ++ (ascii "  irq " ++ (decimal s.isairq ++ end_line))

-- `g_ascii_isprint`
is_print : ℕ → Bool
is_print c = leb 0x20 c && ltb c 0x7f

data_in_row : Io → List ℕ
unfolding row hex_byte is_print
data_in_row s =
    if test_bit s.status rx_ready
    then row (ascii "DATA in")
        (ascii "'" ++ ((if is_print s.data_in then s.data_in else b'.') ∷ ascii "'")) 3
        (hex_byte s.data_in)
    else row (ascii "DATA in") (ascii "-") 1 []

pulses_row : Io → List ℕ
unfolding row decimal
pulses_row s =
    let content = ascii "pulses " ++ decimal s.irq_pulses in
    row (ascii "IRQ") content (length content) []

matrix_rows_from : List ℕ → List ℕ → List ℕ
unfolding row leds hex_byte
matrix_rows_from label [] = []
matrix_rows_from label (v ∷ vs) = row label (leds v) 15 (hex_byte v) ++ matrix_rows_from [] vs

-- `ldd_io_build_panel`
unfoldable pub build_panel : Io → List ℕ
unfolding header rule row leds hex_byte data_in_row bit_led pulses_row matrix_rows_from
build_panel s =
    esc
    ++ (ascii "[H"
        ++ (header s
            ++ (rule
                ++ (row (ascii "DATA out") (leds s.data_out) 15 (hex_byte s.data_out)
                    ++ (data_in_row s
                        ++ (row (ascii "STATUS")
                              (ascii "RX_READY " ++ bit_led (test_bit s.status rx_ready)) 10
                              (hex_byte s.status)
                            ++ (row (ascii "CTRL")
                                  (ascii "IRQ_EN "
                                    ++ (bit_led (test_bit s.ctrl irq_en)
                                        ++ (ascii " LOOP " ++ bit_led (test_bit s.ctrl loopback))))
                                  15 (hex_byte s.ctrl)
                                ++ (pulses_row s
                                    ++ (rule ++ matrix_rows_from (ascii "MATRIX") s.matrix)))))))))

-- Clear the screen and hide the cursor, what a new viewer gets first.
unfoldable pub clear_screen : List ℕ
clear_screen = esc ++ (ascii "[2J" ++ (esc ++ ascii "[?25l"))

-- What the panel shows is read from the properties and the registers alone.
pub build_panel_regs :
    (s : Io) (out : List ℕ) (watch dirty : Bool) (later : List Answer) (es : List Effect)
    → build_panel (record s {
      panel_out = out;
      panel_watch = watch;
      panel_dirty = dirty;
      answers = later;
      effects = es;
    })
      ≡ build_panel s
unfolding build_panel header data_in_row pulses_row
build_panel_regs s out watch dirty later es = refl
