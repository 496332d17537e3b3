-- ===== src/FtpUploader/Unclosed.antt =====
-- What `ftp_uploader_parse_passive_port` of deployer/ftp_uploader.c does without a closing bracket.
use wsn_test_platform.Shared.{
  ℕ, ◌+◌, Bool, true, false, Option, [], ◌∷◌, Ret, ret_ok, ret_oom, Run, ok, fault, ◌==◌, ltb,
  if◌then◌else◌, All, ◌≡◌, and_false, arith, ◌⊎◌, inl, inr, refl,
}
use wsn_test_platform.Protocol.{Bytes}
use wsn_test_platform.FtpUploader.Replies.{
  is_digit, ParseState, parse_start, ip_section, port_section, parse_end, Passive, passive_start,
  parse_char, is_end, parse_loop, ftp_uploader_parse_passive_port,
}

-- One character leaves the parser before its end, and is taken or does not fit.
abbrev GoesOn : Ret × Passive → Type 0
GoesOn r = (is_end r.1.state ≡ false) × ((r.0 ≡ ret_ok) ⊎ (r.0 ≡ ret_oom))

if_GoesOn : (b : Bool) (x y : Ret × Passive) → GoesOn x → GoesOn y → GoesOn (if b then x else y)
if_GoesOn true x y p q = p
if_GoesOn false x y p q = q

full_or_not :
    (b : Bool)
    → ((if b then ret_oom else ret_ok) ≡ ret_ok) ⊎ ((if b then ret_oom else ret_ok) ≡ ret_oom)
full_or_not true = inr refl
full_or_not false = inl refl

parse_char-GoesOn :
    (c : ℕ) (state : ParseState) (ip buffer : Bytes) (p1 p2 : Option ℕ) (n : ℕ)
    → (c == b')') ≡ false
    → is_end state ≡ false
    → GoesOn (
        parse_char c (record {
          state = state;
          ip = ip;
          port_buffer = buffer;
          p1 = p1;
          p2 = p2;
          delims_count = n;
        }))
unfolding parse_char
parse_char-GoesOn c parse_start ip buffer p1 p2 n h e =
    if_GoesOn (c == b'(') _ _ (refl, inl refl) (refl, inl refl)
parse_char-GoesOn c ip_section ip buffer p1 p2 n h e =
    if_GoesOn (is_digit c) _ _ (refl, full_or_not _)
      (if_GoesOn (c == b',') _ _
        (if_GoesOn (ltb (n + 1) 4) _ _ (refl, full_or_not _) (refl, inl refl)) (refl, inl refl))
parse_char-GoesOn c port_section ip buffer p1 p2 n h e = rw h (
    if_GoesOn (is_digit c) _ _ (refl, full_or_not _)
      (if_GoesOn (c == b',') _ _ (refl, inl refl) (refl, inl refl)))
parse_char-GoesOn c parse_end ip buffer p1 p2 n h e = absurd (grind arith)

-- A memory fault, or RET_OOM
abbrev IsLost : {S : Type 0} → Run S Ret → Type 0
IsLost {S = S} r = (r ≡ fault) ⊎ ((s : S) × (r ≡ ok ret_oom s))

parse_loop-IsLost :
    (string : Bytes) (p : Passive)
    → All (λ c. (c == b')') ≡ false) string
    → is_end p.state ≡ false
    → IsLost (parse_loop string p)
unfolding parse_loop
parse_loop-IsLost [] p h e = inl refl
parse_loop-IsLost (c ∷ string) p (hc, h) e =
    let (going, answer) =
      parse_char-GoesOn c p.state p.ip p.port_buffer p.p1 p.p2 p.delims_count hc e in
    rw (e, and_false (c == 0))
      (elim answer [
        | inl taken ↦ rw taken (parse_loop-IsLost string (parse_char c p).1 h going)
        | inr full ↦ rw full (inr (p, refl))
      ])

-- A reply to PASV whose bytes, to the end of the buffer, hold no closing bracket has no regular answer:
-- the parser, which looks for the bracket and not for the NUL, reads on behind the buffer, a memory
-- fault, if it does not first run out of room with RET_OOM.
pub ftp_uploader_parse_passive_port-unclosed :
    (string : Bytes)
    → All (λ c. (c == b')') ≡ false) string
    → (ftp_uploader_parse_passive_port string ≡ fault)
      ⊎ (ftp_uploader_parse_passive_port string ≡ ok ret_oom ([], 0))
unfolding ftp_uploader_parse_passive_port
ftp_uploader_parse_passive_port-unclosed string h =
    elim (parse_loop-IsLost string passive_start h refl) [
      | inl lost ↦ inl (rw (ftp_uploader_parse_passive_port, lost))
      | inr (p, full) ↦ inr (rw (ftp_uploader_parse_passive_port, full))
    ]
