-- ===== src/Console/Tests.antt =====
-- Runs of the console's code on the inputs of invirtio_test.go and others, and instances of its
-- theorems.
use vkage.Base.{
  ◌-◌, ◌≤◌, ◌≡◌, refl, true, false, List, [], ◌∷◌, ◌++◌, map, none, some, arith, Bytes, codes,
  length, drop, inl,
}
use mathlib.Core.List.{flatten}
use vkage.Utf8.{decode_rune, full_rune}
use vkage.Console.Filter.{
  EscapeFilter, filter_text, relay, write, feed, feed_in, text, initial, opens_string,
}
use vkage.Console.Filter.Wf.{IsWf}
use vkage.Console.Filter.Fuel.{feed-eq-feed_in}
use vkage.Console.Filter.Clean.{IsClean, nil, ascii, escape}
use vkage.Console.Filter.Terminal.{ground_state, terminal_reads, IsQuiet, relay-IsQuiet}
use vkage.Console.Filter.Chunks.{relay-flatten}
use vkage.Console.Filter.Passes.{write-IsClean, relay_idem}
use vkage.Console.Server.{
  Client, new_console_server, attach, register, resize, client_of, Event, output_event,
  attach_event, deliver_event, run, produced, scrollback,
}
use vkage.Console.Server.Streams.{stream}
use vkage.Console.Server.Scrollback.{run-stream, run-recent_new}
use vkage.Console.Client.{
  header, attach-header, stdin_loop, stdin_loop-flatten, Sent, works, finished, utf8_locale,
}

-- A title, a raw 8-bit control whose string spans reads, and one in UTF-8, with text around them.
abbrev hostile : List Bytes
hostile =
    (b'a' ∷ 0x1b ∷ codes "]0;title")
    ∷ (0x07 ∷ b'b' ∷ 0x9d ∷ codes "still")
    ∷ (0x9c ∷ b'c' ∷ 0xc2 ∷ [])
    ∷ (0x9d ∷ codes "52;c")
    ∷ (0x07 ∷ codes "d")
    ∷ []

relay-hostile : relay initial hostile ≡ codes "abcd"
unfolding relay full_rune decode_rune
relay-hostile = refl

abbrev plain : List Bytes
plain = (0x1b ∷ codes "[1;31mred") ∷ (0xc3 ∷ []) ∷ (0xa9 ∷ []) ∷ []

relay-plain : relay initial plain ≡ 0x1b ∷ (codes "[1;31mred" ++ 0xc3 ∷ 0xa9 ∷ [])
unfolding relay full_rune decode_rune
relay-plain = refl

-- An overlong encoding of a 8-bit control opens a string as its raw byte does.
relay_overlong :
    relay initial ((b'a' ∷ 0xe0 ∷ 0x82 ∷ 0x9d ∷ codes "0;t") ∷ (0x07 ∷ codes "b") ∷ []) ≡ codes "ab"
unfolding relay full_rune decode_rune
relay_overlong = refl

-- ESC % leaves UTF-8 and is dropped; the character set designations pass.
relay_designation :
    relay initial ((0x1b ∷ codes "%Ga") ∷ (0x1b ∷ codes "(Bx") ∷ []) ≡ b'a' ∷ 0x1b ∷ codes "(Bx"
unfolding relay full_rune decode_rune
relay_designation = refl

relay-IsQuiet_example : IsQuiet (terminal_reads ground_state (relay initial hostile))
relay-IsQuiet_example = relay-IsQuiet ground_state hostile ((λ e. cc), (λ e. cc))

relay-flatten_example : relay initial hostile ≡ (write (λ _. false) initial (flatten hostile)).given
relay-flatten_example = relay-flatten hostile initial

relay_idem_instance : relay initial (relay initial hostile ∷ []) ≡ relay initial hostile
relay_idem_instance = relay_idem hostile

abbrev bold : Bytes
bold = 0x1b ∷ b'[' ∷ b'1' ∷ b'm' ∷ b'x' ∷ []

bold-IsClean : IsClean bold
unfolding opens_string
bold-IsClean =
    escape (omega arith) (omega arith) refl (λ h. absurd (omega arith))
      (ascii (omega arith) (omega arith)
        (ascii (omega arith) (omega arith) (ascii (omega arith) (omega arith) nil)))

write-IsClean_example :
    ((write (λ _. false) initial bold).given ≡ bold)
    × ((write (λ _. false) initial bold).filter ≡ initial)
write-IsClean_example = write-IsClean (λ _. false) bold-IsClean

-- The start of a rune that three bytes encode.
abbrev waiting : EscapeFilter
waiting = record { state = filter_text; pending = 0xe2 ∷ 0x82 ∷ [] }

waiting-IsWf : IsWf waiting
unfolding full_rune
waiting-IsWf = record { partial = refl; only_text = inl refl }

feed-eq-feed_in_example : feed waiting b'A' [] ≡ feed_in waiting.state (text feed) waiting b'A' []
feed-eq-feed_in_example = feed-eq-feed_in waiting b'A' [] waiting-IsWf

-- Output, a client, more output, and a round of the client's goroutine.
abbrev before : List Event
before = output_event (codes "boot") ∷ []

abbrev after : List Event
after = output_event (codes "ok") ∷ deliver_event 0 false ∷ output_event (codes "!") ∷ []

abbrev all_events : List Event
all_events = before ++ attach_event false (0 ∷ 24 ∷ 0 ∷ 80 ∷ []) ∷ after

abbrev attached : Client
attached = record {
  channel = 0;
  queue = codes "ok" ∷ codes "!" ∷ [];
  conn_open = true;
  sent = codes "boot";
}

next_zero : (run new_console_server before).next ≡ 0
unfolding run
next_zero = refl

attached_found :
    client_of (run new_console_server before).next (run new_console_server all_events).clients
    ≡ some attached
unfolding run client_of
attached_found = refl

run-stream_example :
    stream attached
    ≡ drop (length (produced before) - scrollback) (produced before) ++ produced after
run-stream_example = run-stream before after false 0 24 0 80 attached_found refl

run-recent_new_example :
    ((run new_console_server before).recent
      ≡ drop (length (produced before) - scrollback) (produced before))
    × (length (run new_console_server before).recent ≤ scrollback)
run-recent_new_example = run-recent_new before

attach-header_instance :
    (attach false new_console_server (header (some (132, 43)))
      ≡ register (resize false new_console_server 43 132))
    × (attach false new_console_server (header none) ≡ register new_console_server)
attach-header_instance = attach-header false new_console_server 132 43 (omega arith) (omega arith)

abbrev typed : List Bytes
typed = codes "ls" ∷ (b'q' ∷ 0x1d ∷ codes "x") ∷ codes "y" ∷ []

stdin_loop-flatten_example :
    Sent (flatten typed) (stdin_loop (map works typed)).0 (stdin_loop (map works typed)).1
stdin_loop-flatten_example = stdin_loop-flatten typed

stdin_loop-typed : stdin_loop (map works typed) ≡ (codes "lsq", some finished)
unfolding stdin_loop
stdin_loop-typed = refl

locales :
    (utf8_locale ([] ∷ codes "en_US.UTF-8" ∷ codes "C" ∷ []) ≡ true)
    × (utf8_locale (codes "C" ∷ codes "en_US.UTF-8" ∷ []) ≡ false)
unfolding utf8_locale
locales = (refl, refl)
