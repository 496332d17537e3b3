-- ===== src/FtpUploader/Steps.antt =====
-- What `ftp_uploader_parse_passive_port` of deployer/ftp_uploader.c makes of the replies to PASV.
use wsn_test_platform.Shared.{
  ℕ, ◌+◌, ◌-◌, ◌*◌, ◌<◌, ◌≤◌, true, false, Option, none, some, [], ◌∷◌, ◌++◌, ret_ok, ok, ◌==◌,
  length, All, ◌≡◌, and_false, refl, ◌∙◌, sym, ap, arith, append_assoc, append-nil, length-append,
  lt→ltb,
}
use wsn_test_platform.Protocol.{Bytes}
use wsn_test_platform.HexParser.Scan.{skip_space, is_space}
use wsn_test_platform.FtpUploader.Replies.{
  is_digit, digits, atoi, ip_section, port_section, parse_end, Passive, passive_start, parse_char,
  is_end, parse_loop,
}

abbrev pub IsDigit : ℕ → Type 0
IsDigit c = is_digit c ≡ true

-- The number that decimal digits stand for
unfoldable pub decimal : Bytes → ℕ → ℕ
decimal [] value = value
decimal (c ∷ cs) value = decimal cs (value * 10 + (c - b'0'))

not_space : (c : ℕ) → is_digit c ≡ true → is_space c ≡ false
unfolding is_space
not_space c h = ground arith

not_minus : (c : ℕ) → is_digit c ≡ true → (c == b'-') ≡ false
not_minus c h = ground arith

not_plus : (c : ℕ) → is_digit c ≡ true → (c == b'+') ≡ false
not_plus c h = ground arith

digits-decimal : (ds : Bytes) (value : ℕ) → All IsDigit ds → digits ds value ≡ decimal ds value
unfolding digits decimal
digits-decimal [] value h = refl
digits-decimal (d ∷ ds) value (hd, h) = rw hd (digits-decimal ds (value * 10 + (d - b'0')) h)

atoi-decimal : (ds : Bytes) → All IsDigit ds → (atoi ds).1 ≡ decimal ds 0
unfolding atoi skip_space decimal
atoi-decimal [] h = refl
atoi-decimal (d ∷ ds) (hd, h) =
    rw (atoi, skip_space, not_space d hd, not_minus d hd, not_plus d hd)
      (digits-decimal (d ∷ ds) 0 (hd, h))

-- The states on the way, by what they hold
abbrev pub in_ip : Bytes → ℕ → Passive
in_ip ip n = record {
  state = ip_section;
  ip = ip;
  port_buffer = [];
  p1 = none;
  p2 = none;
  delims_count = n;
}

abbrev in_port : Bytes → Bytes → Option ℕ → Passive
in_port ip buffer p1 = record {
  state = port_section;
  ip = ip;
  port_buffer = buffer;
  p1 = p1;
  p2 = none;
  delims_count = 4;
}

abbrev pub at_end : Bytes → ℕ → ℕ → Passive
at_end ip p1 p2 = record {
  state = parse_end;
  ip = ip;
  port_buffer = [];
  p1 = some p1;
  p2 = some p2;
  delims_count = 4;
}

not_full : (n m : ℕ) → n < m → (n == m) ≡ false
not_full n m h = ground arith

pub one_char :
    (c : ℕ) (s : Bytes) (p q : Passive)
    → is_end p.state ≡ false
    → parse_char c p ≡ (ret_ok, q)
    → parse_loop (c ∷ s) p ≡ parse_loop s q
unfolding parse_loop
one_char c s p q going step =
    rw (going, and_false (c == 0), ap (λ r. r.0) step) (ap (λ r. parse_loop s r.1) step)

pub before_bracket :
    (prefix s : Bytes)
    → All (λ c. (c == b'(') ≡ false) prefix
    → parse_loop (prefix ++ s) passive_start ≡ parse_loop s passive_start
unfolding parse_char
before_bracket [] s h = refl
before_bracket (c ∷ prefix) s (hc, h) =
    one_char c (prefix ++ s) passive_start passive_start refl (rw hc refl)
    ∙ before_bracket prefix s h

ip_digits :
    (ds s ip : Bytes) (n : ℕ)
    → All IsDigit ds
    → length ip + length ds < 16
    → parse_loop (ds ++ s) (in_ip ip n) ≡ parse_loop s (in_ip (ip ++ ds) n)
unfolding parse_char
ip_digits [] s ip n h b = ap (λ i. parse_loop s (in_ip i n)) (sym (append-nil ip))
ip_digits (d ∷ ds) s ip n (hd, h) b =
    one_char d (ds ++ s) (in_ip ip n) (in_ip (ip ++ (d ∷ [])) n) refl
      (rw (hd, not_full (length ip + 1) 16 (omega (arith, b))) refl)
    ∙ ip_digits ds s (ip ++ (d ∷ [])) n h (omega (arith, b, length-append ip (d ∷ [])))
    ∙ ap (λ i. parse_loop s (in_ip i n)) (append_assoc ip (d ∷ []) ds)

port_digits :
    (ds s ip buffer : Bytes) (p1 : Option ℕ)
    → All IsDigit ds
    → length buffer + length ds < 10
    → parse_loop (ds ++ s) (in_port ip buffer p1) ≡ parse_loop s (in_port ip (buffer ++ ds) p1)
unfolding parse_char
port_digits [] s ip buffer p1 h b =
    ap (λ i. parse_loop s (in_port ip i p1)) (sym (append-nil buffer))
port_digits (d ∷ ds) s ip buffer p1 (hd, h) b =
    one_char d (ds ++ s) (in_port ip buffer p1) (in_port ip (buffer ++ (d ∷ [])) p1) refl
      (rw (hd, not_full (length buffer + 1) 10 (omega (arith, b))) refl)
    ∙ port_digits ds s ip (buffer ++ (d ∷ [])) p1 h
        (omega (arith, b, length-append buffer (d ∷ [])))
    ∙ ap (λ i. parse_loop s (in_port ip i p1)) (append_assoc buffer (d ∷ []) ds)

-- A field of the address that is not its last one, with its comma
pub ip_field :
    (ds s ip : Bytes) (n : ℕ)
    → All IsDigit ds
    → length ip + length ds < 15
    → n < 3
    → parse_loop (ds ++ (b',' ∷ s)) (in_ip ip n)
      ≡ parse_loop s (in_ip ((ip ++ ds) ++ (b'.' ∷ [])) (n + 1))
unfolding parse_char
ip_field ds s ip n h b m =
    ip_digits ds (b',' ∷ s) ip n h (omega (arith, b))
    ∙ one_char b',' s (in_ip (ip ++ ds) n) (in_ip ((ip ++ ds) ++ (b'.' ∷ [])) (n + 1)) refl (
        rw
          (
            lt→ltb (n + 1) 4 (omega (arith, m)),
            not_full (length (ip ++ ds) + 1) 16 (omega (arith, b, length-append ip ds)),
          )
          refl)

pub last_ip_field :
    (ds s ip : Bytes)
    → All IsDigit ds
    → length ip + length ds < 16
    → parse_loop (ds ++ (b',' ∷ s)) (in_ip ip 3) ≡ parse_loop s (in_port (ip ++ ds) [] none)
unfolding parse_char
last_ip_field ds s ip h b =
    ip_digits ds (b',' ∷ s) ip 3 h b
    ∙ one_char b',' s (in_ip (ip ++ ds) 3) (in_port (ip ++ ds) [] none) refl refl

pub port_fields :
    (ds es s ip : Bytes)
    → All IsDigit ds
    → All IsDigit es
    → length ds < 10
    → length es < 10
    → parse_loop (ds ++ (b',' ∷ (es ++ (b')' ∷ s)))) (in_port ip [] none)
      ≡ parse_loop s (at_end ip (decimal ds 0) (decimal es 0))
unfolding parse_char
port_fields ds es s ip hd he bd be =
    port_digits ds (b',' ∷ (es ++ (b')' ∷ s))) ip [] none hd (omega (arith, bd))
    ∙ one_char b',' (es ++ (b')' ∷ s)) (in_port ip ds none) (in_port ip [] (some (atoi ds).1)) refl
        refl
    ∙ port_digits es (b')' ∷ s) ip [] (some (atoi ds).1) he (omega (arith, be))
    ∙ one_char b')' s (in_port ip es (some (atoi ds).1)) (at_end ip (atoi ds).1 (atoi es).1) refl
        refl
    ∙ ap (λ n. parse_loop s (at_end ip n (atoi es).1)) (atoi-decimal ds hd)
    ∙ ap (λ n. parse_loop s (at_end ip (decimal ds 0) n)) (atoi-decimal es he)

pub after_bracket :
    (suffix s ip : Bytes) (p1 p2 : ℕ)
    → All (λ c. (c == 0) ≡ false) suffix
    → parse_loop (suffix ++ (0 ∷ s)) (at_end ip p1 p2) ≡ ok ret_ok (at_end ip p1 p2)
unfolding parse_loop parse_char
after_bracket [] s ip p1 p2 h = refl
after_bracket (c ∷ suffix) s ip p1 p2 (hc, h) = rw hc (after_bracket suffix s ip p1 p2 h)

-- `… (h1,h2,h3,h4,p1,p2) …`, with what stands around it and behind the NUL
abbrev pub passive_reply :
    Bytes → Bytes → Bytes → Bytes → Bytes → Bytes → Bytes → Bytes → Bytes → Bytes
passive_reply prefix h1 h2 h3 h4 p1 p2 suffix stale =
    prefix
    ++ (b'('
        ∷ (h1
            ++ (b','
                ∷ (h2
                    ++ (b','
                        ∷ (h3
                            ++ (b','
                                ∷ (h4
                                    ++ (b','
                                        ∷ (p1
                                            ++ (b','
                                                ∷ (p2
                                                    ++ (b')' ∷ (suffix ++ (0 ∷ stale)))))))))))))))

-- `h1.h2.h3.h4`
abbrev pub dotted : Bytes → Bytes → Bytes → Bytes → Bytes
dotted h1 h2 h3 h4 = ((((((h1 ++ (b'.' ∷ [])) ++ h2) ++ (b'.' ∷ [])) ++ h3) ++ (b'.' ∷ [])) ++ h4)

-- A number of an address: at most three digits
abbrev pub IsField : Bytes → Type 0
IsField ds = All IsDigit ds × (length ds ≤ 3)

-- A number of a port: a byte, which is written in fewer than ten digits
abbrev pub IsPortField : Bytes → Type 0
IsPortField ds = All IsDigit ds × (length ds < 10) × (decimal ds 0 < 256)
