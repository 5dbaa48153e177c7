-- ===== src/Serial/Tests.antt =====
-- A transmitter, and a line sent to it.
use binbows_dos.Common.{
  ℕ, ◌+◌, ◌-◌, ◌<◌, ◌≡◌, ◌≢◌, refl, bit_and, some, List, [], ◌∷◌, ◌++◌, ◌==◌, if◌then◌else◌, arith,
  min, ne→==, eq→==, chars,
}
use binbows_dos.Io.{Bus}
use binbows_dos.Vga.{Arg, word, text, number_text, digits_loop, digit_char}
use binbows_dos.Serial.{serial_vserial_printf, com1_port}
use binbows_dos.Serial.Uart.{Uart, bytes}
use binbows_dos.Serial.Text.{serial_rendered, serial_shown, signed_text}
use binbows_dos.Serial.Printf.{serial_vserial_printf-rendered}

record Port : Type 0 where
  sent : List ℕ
  busy : ℕ

abbrev port_read : ℕ → Port → ℕ × Port
port_read port d = if d.busy == 0 then (0x60, d) else (0x40, record d { busy = min d.busy 2 - 1 })

-- Each byte takes two reads of the status.
abbrev line : Bus
line = record {
  Device = Port;
  read = port_read;
  write = λ port v d. if port == 0x3f8 then record { sent = d.sent ++ v ∷ []; busy = 2 } else d;
  read_word = λ port d. (0xffff, d);
  write_word = λ port w d. d;
}

port_busy :
    (d : Port)
    → 0 < min d.busy 2
    → (bit_and (port_read (com1_port + 5) d).0 0x20 ≡ 0)
      × (min (port_read (com1_port + 5) d).1.busy 2 + 1 ≡ min d.busy 2)
      × ((port_read (com1_port + 5) d).1.sent ≡ d.sent)
port_busy d h = rw (ne→== d.busy 0 (omega arith)) (refl, omega arith, refl)

port_ready :
    (d : Port)
    → min d.busy 2 ≡ 0
    → (bit_and (port_read (com1_port + 5) d).0 0x20 ≢ 0)
      × (min (port_read (com1_port + 5) d).1.busy 2 ≡ 0)
      × ((port_read (com1_port + 5) d).1.sent ≡ d.sent)
port_ready d h = rw (eq→== d.busy 0 (omega arith)) ((λ e. omega arith), h, refl)

abbrev line_uart : Uart line 2
line_uart = record {
  sent = λ d. d.sent;
  busy = λ d. min d.busy 2;
  busy_le = λ d. omega arith;
  busy_status = port_busy;
  ready_status = port_ready;
  transmit = λ v d h e. refl;
}

abbrev idle : Port
idle = record { sent = []; busy = 0 }

abbrev format : List ℕ
format = chars "%d: %s\n"

abbrev args : List Arg
args = word 0xffff_ffff ∷ text (some (chars "ok")) ∷ []

args_rendered : serial_rendered format args ≡ some (chars "-1: ok\n")
unfolding serial_rendered serial_shown signed_text number_text digits_loop digit_char
args_rendered = refl

serial_vserial_printf-rendered_example :
    (d' : Port) × (serial_vserial_printf line 3 format args idle ≡ some d')
    × (d'.sent ≡ [] ++ bytes (chars "-1: ok\n"))
serial_vserial_printf-rendered_example =
    serial_vserial_printf-rendered line 2 line_uart 3 (omega arith) format args (chars "-1: ok\n")
      idle args_rendered
