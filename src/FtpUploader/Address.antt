-- ===== src/FtpUploader/Address.antt =====
-- The address that `ftp_uploader_parse_passive_port` of deployer/ftp_uploader.c reads.
use wsn_test_platform.Shared.{
  ℕ, ◌+◌, ◌*◌, ◌^◌, ◌<◌, false, [], ◌∷◌, ◌++◌, ret_ok, ok, ◌==◌, length, All, ◌≡◌, refl, ◌∙◌, arith,
  length-append, lt→ltb,
}
use wsn_test_platform.Protocol.{Bytes}
use wsn_test_platform.FtpUploader.Replies.{
  passive_start, parse_char, parse_loop, port_of, ftp_uploader_parse_passive_port,
}
use wsn_test_platform.FtpUploader.Steps.{
  decimal, in_ip, at_end, one_char, before_bracket, ip_field, last_ip_field, port_fields,
  after_bracket, passive_reply, dotted, IsField, IsPortField,
}

length_dot : (xs : Bytes) → length (xs ++ (b'.' ∷ [])) ≡ length xs + 1
length_dot xs = length-append xs (b'.' ∷ [])

length_two :
    (h1 h2 : Bytes)
    → length (((h1 ++ (b'.' ∷ [])) ++ h2) ++ (b'.' ∷ [])) ≡ length h1 + length h2 + 2
length_two h1 h2 = omega (
  arith,
  length_dot ((h1 ++ (b'.' ∷ [])) ++ h2),
  length-append (h1 ++ (b'.' ∷ [])) h2,
  length_dot h1,
)

length_three :
    (h1 h2 h3 : Bytes)
    → length (((((h1 ++ (b'.' ∷ [])) ++ h2) ++ (b'.' ∷ [])) ++ h3) ++ (b'.' ∷ []))
      ≡ length h1 + length h2 + length h3 + 3
length_three h1 h2 h3 = omega (
  arith,
  length_dot ((((h1 ++ (b'.' ∷ [])) ++ h2) ++ (b'.' ∷ [])) ++ h3),
  length-append (((h1 ++ (b'.' ∷ [])) ++ h2) ++ (b'.' ∷ [])) h3,
  length_two h1 h2,
)

-- From the opening bracket on
parse_fields :
    (h1 h2 h3 h4 p1 p2 rest : Bytes)
    → IsField h1
    → IsField h2
    → IsField h3
    → IsField h4
    → IsPortField p1
    → IsPortField p2
    → parse_loop
        (h1
          ++ (b','
              ∷ (h2
                  ++ (b','
                      ∷ (h3 ++ (b',' ∷ (h4 ++ (b',' ∷ (p1 ++ (b',' ∷ (p2 ++ (b')' ∷ rest))))))))))))
        (in_ip [] 0)
      ≡ parse_loop rest (at_end (dotted h1 h2 h3 h4) (decimal p1 0) (decimal p2 0))
parse_fields h1 h2 h3 h4 p1 p2 rest (d1, l1) (d2, l2) (d3, l3) (d4, l4) (e1, m1, b1) (e2, m2, b2) =
    ip_field h1 _ [] 0 d1 (omega (arith, l1)) (omega arith)
    ∙ ip_field h2 _ (h1 ++ (b'.' ∷ [])) 1 d2 (omega (arith, l1, l2, length_dot h1)) (omega arith)
    ∙ ip_field h3 _ (((h1 ++ (b'.' ∷ [])) ++ h2) ++ (b'.' ∷ [])) 2 d3
        (omega (arith, l1, l2, l3, length_two h1 h2)) (omega arith)
    ∙ last_ip_field h4 _ _ d4 (omega (arith, l1, l2, l3, l4, length_three h1 h2 h3))
    ∙ port_fields p1 p2 rest _ e1 e2 m1 m2

answer_of :
    (string ip : Bytes) (m n : ℕ)
    → m < 256
    → n < 256
    → parse_loop string passive_start ≡ ok ret_ok (at_end ip m n)
    → ftp_uploader_parse_passive_port string ≡ ok ret_ok (ip, m * 256 + n)
unfolding ftp_uploader_parse_passive_port port_of
answer_of string ip m n hm hn parsed =
    rw (
      ftp_uploader_parse_passive_port,
      parsed,
      lt→ltb (m * 256 + n) (2 ^ 31) (omega (arith, hm, hn)),
    )

-- The reply to PASV: behind a text without an opening bracket, four numbers of at most three digits
-- and two bytes, in brackets and with commas between, and a text up to the NUL give RET_OK, the numbers
-- with dots between as the address and p1 * 256 + p2 as the port.
pub ftp_uploader_parse_passive_port-address :
    (prefix h1 h2 h3 h4 p1 p2 suffix stale : Bytes)
    → All (λ c. (c == b'(') ≡ false) prefix
    → IsField h1
    → IsField h2
    → IsField h3
    → IsField h4
    → IsPortField p1
    → IsPortField p2
    → All (λ c. (c == 0) ≡ false) suffix
    → ftp_uploader_parse_passive_port (passive_reply prefix h1 h2 h3 h4 p1 p2 suffix stale)
      ≡ ok ret_ok (dotted h1 h2 h3 h4, decimal p1 0 * 256 + decimal p2 0)
unfolding parse_char
ftp_uploader_parse_passive_port-address prefix h1 h2 h3 h4 p1 p2 suffix stale hp (d1, l1) (d2, l2)
      (d3, l3) (d4, l4) (e1, m1, b1) (e2, m2, b2) hs =
    answer_of _ (dotted h1 h2 h3 h4) (decimal p1 0) (decimal p2 0) b1 b2 (
      before_bracket prefix _ hp
      ∙ one_char b'(' _ passive_start (in_ip [] 0) refl refl
      ∙ parse_fields h1 h2 h3 h4 p1 p2 (suffix ++ (0 ∷ stale)) (d1, l1) (d2, l2) (d3, l3) (d4, l4)
          (e1, m1, b1) (e2, m2, b2)
      ∙ after_bracket suffix stale (dotted h1 h2 h3 h4) (decimal p1 0) (decimal p2 0) hs)
