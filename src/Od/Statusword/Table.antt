-- ===== src/Od/Statusword/Table.antt =====
-- The state inference against the table of masks and patterns of the CiA 402 standard.
use Prim.Native.Nat.{bit_and}
use dryve_d.Base.{
  ℕ, zero, suc, ◌%◌, ◌≤◌, All, ◌<◌, ◌≡◌, refl, sym, ap, ◌∙◌, Bool, true, ◌&&◌, List, [], ◌∷◌, ◌++◌,
  arith, ℕ_discrete, ◌==◌, ==_iff, if◌then◌else◌,
}
use dryve_d.Base.Bits.{bit_and-low}
use dryve_d.Cia402.Bits.{bit_is_set}
use dryve_d.Od.Statusword.{Cia402State, infer_cia402_state}

-- A row: mask, pattern, state. A word is in the state of the first row that it matches.
abbrev pub Row : Type 0
Row = ℕ × ℕ × Cia402State

-- The standard's rows.
abbrev pub standard_table : List Row
standard_table =
    (0x4F, 0x00, Cia402State.not_ready_to_switch_on)
    ∷ (0x4F, 0x40, Cia402State.switch_on_disabled)
    ∷ (0x6F, 0x21, Cia402State.ready_to_switch_on)
    ∷ (0x6F, 0x23, Cia402State.switched_on)
    ∷ (0x6F, 0x27, Cia402State.operation_enabled)
    ∷ (0x6F, 0x07, Cia402State.quick_stop_active)
    ∷ (0x4F, 0x0F, Cia402State.fault_reaction_active)
    ∷ (0x4F, 0x08, Cia402State.fault)
    ∷ []

-- Words that the standard gives no state: bit 5 clear in two states, and any other word with the
-- fault bit.
abbrev pub tolerated_table : List Row
tolerated_table =
    (0x6F, 0x01, Cia402State.ready_to_switch_on)
    ∷ (0x6F, 0x03, Cia402State.switched_on)
    ∷ (0x0F, 0x0F, Cia402State.fault_reaction_active)
    ∷ (0x08, 0x08, Cia402State.fault)
    ∷ []

abbrev pub state_table : List Row
state_table = standard_table ++ tolerated_table

pub first_match : ℕ → List Row → Cia402State
first_match w [] = Cia402State.unknown
first_match w ((m, p, s) ∷ rows) = if bit_and w m == p then s else first_match w rows

-- A number for each state, by which an evaluation compares two of them.
state_code : Cia402State → ℕ
state_code Cia402State.not_ready_to_switch_on = 0
state_code Cia402State.switch_on_disabled = 1
state_code Cia402State.ready_to_switch_on = 2
state_code Cia402State.switched_on = 3
state_code Cia402State.operation_enabled = 4
state_code Cia402State.quick_stop_active = 5
state_code Cia402State.fault_reaction_active = 6
state_code Cia402State.fault = 7
state_code Cia402State.unknown = 8

state_code-injective : (s t : Cia402State) → state_code s ≡ state_code t → s ≡ t
unfolding state_code
state_code-injective s t h = ground arith

agree_below : ℕ → Bool
agree_below zero = true
agree_below (suc n) =
    (state_code (infer_cia402_state n) == state_code (first_match n state_table)) && agree_below n

and_parts : (b c : Bool) → (b && c) ≡ true → (b ≡ true) × (c ≡ true)
and_parts b c h = ground arith

agree_below_sound :
    (n w : ℕ) → agree_below n ≡ true → w < n → infer_cia402_state w ≡ first_match w state_table
unfolding agree_below
agree_below_sound zero w h lt = absurd (omega arith)
agree_below_sound (suc n) w h lt =
    let (here, below) = and_parts _ (agree_below n) h in
    elim (ℕ_discrete w n) [
      | yes e ↦ rw e (state_code-injective _ _ ((==_iff _ _).0 here))
      | no ne ↦ agree_below_sound n w below (omega arith)
    ]

-- All 128 settings of the low seven bits, by evaluation.
low_table : agree_below 128 ≡ true
unfolding agree_below state_code infer_cia402_state bit_is_set first_match
low_table = refl

-- A bit among the low seven is the same in `w % 128`.
low_bit : (w k : ℕ) → k ≤ 6 → bit_is_set (w % 65536) k ≡ bit_is_set (w % 128 % 65536) k
unfolding bit_is_set
low_bit w zero h = ap (λ t. t == 1) (omega arith)
low_bit w (suc zero) h = ap (λ t. t == 1) (omega arith)
low_bit w (suc (suc zero)) h = ap (λ t. t == 1) (omega arith)
low_bit w (suc (suc (suc zero))) h = ap (λ t. t == 1) (omega arith)
low_bit w (suc (suc (suc (suc zero)))) h = ap (λ t. t == 1) (omega arith)
low_bit w (suc (suc (suc (suc (suc zero))))) h = ap (λ t. t == 1) (omega arith)
low_bit w (suc (suc (suc (suc (suc (suc zero)))))) h = ap (λ t. t == 1) (omega arith)
low_bit w (suc (suc (suc (suc (suc (suc (suc k))))))) h = absurd (omega arith)

-- Bits above 6 do not matter.
infer_low : (w : ℕ) → infer_cia402_state w ≡ infer_cia402_state (w % 128)
unfolding infer_cia402_state
infer_low w = cc (
  low_bit w 0 (omega arith),
  low_bit w 1 (omega arith),
  low_bit w 2 (omega arith),
  low_bit w 3 (omega arith),
  low_bit w 5 (omega arith),
  low_bit w 6 (omega arith),
)

first_match_low :
    (w : ℕ) (rows : List Row)
    → All (λ row. row.0 < 128) rows
    → first_match w rows ≡ first_match (w % 128) rows
unfolding first_match
first_match_low w [] h = refl
first_match_low w ((m, p, s) ∷ rows) (small, rest) =
    rw (bit_and-low 7 w m small, first_match_low w rows rest)

-- For every word, the state that the code infers is the one of the first row that the word matches:
-- of the eight rows of the CiA 402 standard, then of four rows for words that these leave out. It
-- is `unknown` if the word matches none.
pub infer-eq-table : (w : ℕ) → infer_cia402_state w ≡ first_match w state_table
infer-eq-table w =
    infer_low w
    ∙ agree_below_sound 128 (w % 128) low_table (omega arith)
    ∙ sym (first_match_low w state_table (omega arith))
