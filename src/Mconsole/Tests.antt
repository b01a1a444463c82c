-- ===== src/Mconsole/Tests.antt =====
-- A request and its replies, and an instance of the theorem on them.
use vkage.Base.{ℕ, ◌≡◌, refl, [], ◌∷◌, none, codes, arith}
use vkage.Utf8.{runes, decode_rune}
use vkage.Report.Memory.{is_space}
use vkage.Mconsole.Space.{trim_space}
use vkage.Mconsole.{refused, answered, short_reply, datagram, request, read_reply}
use vkage.Mconsole.Replies.{all_replies, reply_bytes, IsAnswer, request-all_replies}
use vkage.Mconsole.Bounds.{IsBounded, request-IsBounded}

asked : request {E = ℕ} (codes "version") none none (datagram (codes "OK") ∷ []) ≡ short_reply
unfolding request read_reply
asked = refl

-- Only the first reply's error counts.
later_error :
    request {E = ℕ}
      (codes "log")
      none
      none
      (datagram (reply_bytes 0 1 (codes "a")) ∷ datagram (reply_bytes 7 0 (codes "b")) ∷ [])
    ≡ answered (codes "ab")
unfolding request read_reply
later_error = refl

request-all_replies_example :
    IsAnswer 5 (codes "no such") (
      request {E = ℕ}
        (codes "config x")
        none
        none
        (all_replies 5 (codes "no " ∷ []) (codes "such")))
request-all_replies_example =
    request-all_replies (codes "config x") 5 (codes "no " ∷ []) (codes "such") (omega arith)
      (omega arith) ((omega arith, (refl, (refl, (refl, tt)))), tt)
      (omega arith, (refl, (refl, (refl, (refl, tt))))) (omega arith)

-- The space around a refusal's words is taken off.
refusal :
    request {E = ℕ} (codes "x") none none (all_replies 5 [] (codes " not \n"))
    ≡ refused (codes "not")
unfolding request read_reply trim_space runes decode_rune is_space
refusal = refl

answer_bound :
    IsBounded
      (request {E = ℕ} (codes "log") none none (datagram (reply_bytes 7 0 (codes "b")) ∷ []))
answer_bound =
    request-IsBounded (codes "log") none none (datagram (reply_bytes 7 0 (codes "b")) ∷ [])
