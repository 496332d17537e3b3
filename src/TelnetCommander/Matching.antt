-- ===== src/TelnetCommander/Matching.antt =====
-- The search for the expected texts in deployer/telnet_commander.c.
use wsn_test_platform.Shared.{
  ℕ, ◌+◌, Bool, true, false, ◌&&◌, ◌||◌, Option, none, some, List, [], ◌∷◌, ◌==◌, if◌then◌else◌,
}
use wsn_test_platform.Protocol.{Bytes}

-- Whether the first text starts with the second one
abbrev pub starts_with : Bytes → Bytes → Bool
starts_with s [] = true
starts_with [] (d ∷ ds) = false
starts_with (c ∷ s) (d ∷ ds) = c == d && starts_with s ds

-- `strstr(s, item) != NULL`
unfoldable pub strstr : Bytes → Bytes → Bool
strstr [] item = starts_with [] item
strstr (c ∷ s) item = starts_with (c ∷ s) item || strstr s item

-- The index of the first item that occurs in the text, counted from `index`; `none` is FALSE.
unfoldable pub match_from : Bytes → List Bytes → ℕ → Option ℕ
unfolding strstr
match_from comparer [] index = none
match_from comparer (item ∷ items) index =
    let later = match_from comparer items (index + 1) in
    if strstr comparer item then some index else later

unfoldable pub match_list : Bytes → List Bytes → Option ℕ
unfolding match_from
match_list comparer desire_list = match_from comparer desire_list 0
