-- ===== src/Util/Tests.antt =====
-- The theorems on app/util.c at short texts.
use wsn_test_platform.Shared.{
  true, false, some, [], ◌∷◌, ◌++◌, Returns, ok, length, take, All, ◌==◌, ◌≡◌, ◌≢◌, refl, arith,
}
use wsn_test_platform.Protocol.{Bytes, node_delimiter}
use wsn_test_platform.Util.{copy_with_process_delimiter, even_check, even_loop}
use wsn_test_platform.Util.Escape.{
  escape, unescape, copy_with_process_delimiter-escape, copy_with_process_delimiter-unescape,
}
use wsn_test_platform.Util.Parity.{
  parity, even_check-parity, even_check-parity_byte, even_check-detects,
}

abbrev text : Bytes
text = 1 ∷ 0x7e ∷ 2 ∷ 0x7d ∷ 3 ∷ []

copy_with_process_delimiter-escape_example :
    copy_with_process_delimiter 256 text 4 []
    ≡ ok (length (escape (take 4 text))) (escape (take 4 text))
copy_with_process_delimiter-escape_example =
    copy_with_process_delimiter-escape 256 4 text (omega arith) (omega arith) (omega arith)

copy_with_process_delimiter-unescape_example :
    Returns
      (λ count out.
        (count ≡ length out)
        × (unescape out ≡ some (take 4 text))
        × All (λ b. b ≢ node_delimiter) out)
      (copy_with_process_delimiter 256 text 4 [])
copy_with_process_delimiter-unescape_example =
    copy_with_process_delimiter-unescape 256 4 text (omega arith) (omega arith) (omega arith)

even_check-parity_example : even_check text 3 ≡ some (parity (take 3 text) == 0)
even_check-parity_example = even_check-parity text 2 (omega arith)

even_check-parity_byte_example :
    even_check ((1 ∷ 2 ∷ []) ++ (parity ((1 ∷ 2 ∷ []) ++ (4 ∷ [])) ∷ (4 ∷ []))) 4 ≡ some true
even_check-parity_byte_example = even_check-parity_byte (1 ∷ 2 ∷ []) (4 ∷ [])

even_message : even_check (1 ∷ 2 ∷ 3 ∷ []) 3 ≡ some true
unfolding even_check even_loop
even_message = refl

even_check-detects_example : even_check (1 ∷ 7 ∷ 3 ∷ []) 3 ≡ some false
even_check-detects_example =
    even_check-detects (1 ∷ []) (3 ∷ []) 2 7 even_message (λ e. ground arith)
