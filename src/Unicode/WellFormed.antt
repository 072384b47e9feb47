-- ===== src/Unicode/WellFormed.antt =====
-- The table of well-formed UTF-8 in the comment of ase/unicode.cc, and what encodefs passes on.
use anklang.Prelude.{ℕ, ◌≤◌, ◌≡◌, [], ◌∷◌, ◌⊎◌}
use anklang.Unicode.Char.{Bytes}

abbrev Within : ℕ → ℕ → ℕ → Type 0
Within lo hi d = (lo ≤ d) × (d ≤ hi)

-- "Table 3-7. Well-Formed UTF-8 Byte Sequences", a constructor for each row.
pub data IsWellFormed : Bytes → Type 0 where
  end : IsWellFormed []
  row_0000 : {c : ℕ} {s : Bytes} → c ≤ 0x7F → IsWellFormed s → IsWellFormed (c ∷ s)
  row_0080 :
      {c d : ℕ} {s : Bytes}
      → Within 0xC2 0xDF c
      → Within 0x80 0xBF d
      → IsWellFormed s
      → IsWellFormed (c ∷ d ∷ s)
  row_0800 :
      {c d e : ℕ} {s : Bytes}
      → c ≡ 0xE0
      → Within 0xA0 0xBF d
      → Within 0x80 0xBF e
      → IsWellFormed s
      → IsWellFormed (c ∷ d ∷ e ∷ s)
  row_1000 :
      {c d e : ℕ} {s : Bytes}
      → Within 0xE1 0xEC c ⊎ Within 0xEE 0xEF c
      → Within 0x80 0xBF d
      → Within 0x80 0xBF e
      → IsWellFormed s
      → IsWellFormed (c ∷ d ∷ e ∷ s)
  row_D000 :
      {c d e : ℕ} {s : Bytes}
      → c ≡ 0xED
      → Within 0x80 0x9F d
      → Within 0x80 0xBF e
      → IsWellFormed s
      → IsWellFormed (c ∷ d ∷ e ∷ s)
  row_10000 :
      {c d e f : ℕ} {s : Bytes}
      → c ≡ 0xF0
      → Within 0x90 0xBF d
      → Within 0x80 0xBF e
      → Within 0x80 0xBF f
      → IsWellFormed s
      → IsWellFormed (c ∷ d ∷ e ∷ f ∷ s)
  row_40000 :
      {c d e f : ℕ} {s : Bytes}
      → Within 0xF1 0xF3 c
      → Within 0x80 0xBF d
      → Within 0x80 0xBF e
      → Within 0x80 0xBF f
      → IsWellFormed s
      → IsWellFormed (c ∷ d ∷ e ∷ f ∷ s)
  row_100000 :
      {c d e f : ℕ} {s : Bytes}
      → c ≡ 0xF4
      → Within 0x80 0x8F d
      → Within 0x80 0xBF e
      → Within 0x80 0xBF f
      → IsWellFormed s
      → IsWellFormed (c ∷ d ∷ e ∷ f ∷ s)
