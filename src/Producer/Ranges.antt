-- ===== src/Producer/Ranges.antt =====
-- The ranges that the producer asks for.
use sqd_go.Base.{
  ℕ, ◌+◌, ◌-◌, ◌^◌, ◌<◌, ◌≡◌, refl, inl, inr, ◌⊎◌, zero, suc, subst, Bool, true, false, ◌&&◌, ◌||◌,
  Bool-cases, Option, none, some, arith, ltb, ◌==◌, if◌then◌else◌,
}
use sqd_go.PageSize.{word}
use sqd_go.Producer.{
  past_end, page_range, next_request_range, next_producer_request_range, effective_page_size,
  open_label,
}
use sqd_go.Producer.Requests.{
  Within, IsPaged, page_in, Asked, passed, wrapped, paged, whole, unbounded, to_tail,
}

effective_page_size-page_in :
    (page adaptive : ℕ) (cursor_mode : Bool)
    → effective_page_size page adaptive cursor_mode ≡ page_in page adaptive cursor_mode
effective_page_size-page_in page adaptive false = ground arith
effective_page_size-page_in zero adaptive true = refl
effective_page_size-page_in (suc n) adaptive true = ground arith

page_range-Asked :
    {Paged : Type 0} (current page : ℕ) (end : Option ℕ) (cursor_mode : Bool)
    → current < 2 ^ 64
    → page < 2 ^ 64
    → 0 < page
    → Paged
    → Within current end
    → Asked Paged current page end cursor_mode (page_range current page end)
page_range-Asked current page none m c s p g w =
    elim (Bool-cases (ltb (word (current + page - 1)) current)) [
      | inl yes_ ↦ rw yes_ (wrapped w g (ground arith))
      | inr no_ ↦
          rw no_ (paged _ w g (ground arith) (omega arith, ground arith, inl (ground arith)))
    ]
page_range-Asked current page (some end) m c s p g w =
    elim (Bool-cases (ltb end (word (current + page - 1)))) [
      | inl over ↦
          let no_ : ltb end current ≡ false = ground arith in
          rw (over, no_) (paged end w g w (omega arith, ground arith, inr refl))
      | inr under ↦ elim (Bool-cases (ltb (word (current + page - 1)) current)) [
        | inl yes_ ↦ rw (under, yes_) (wrapped w g (ground arith))
        | inr no_ ↦
            rw (under, no_)
              (paged _ w g (ground arith) (ground arith, ground arith, inl (ground arith)))
      ]
    ]

past_end-Within :
    (current : ℕ) (end : Option ℕ) → past_end current end ≡ true → ¬ Within current end
past_end-Within current none h w = cc
past_end-Within current (some end) h w = ground arith

Within-past_end : (current : ℕ) (end : Option ℕ) → past_end current end ≡ false → Within current end
Within-past_end current none h = omega arith
Within-past_end current (some end) h = ground arith

cursor_range-Asked :
    {Paged : Type 0} (current page : ℕ) (end : Option ℕ)
    → Within current end
    → ¬ Paged
    → Asked Paged current page end true
        (some (record { to_block = end; label = open_label current end }))
cursor_range-Asked current page none w n = to_tail w n refl
cursor_range-Asked current page (some end) w n = whole end w n refl refl

open_range-Asked :
    {Paged : Type 0} (current page : ℕ) (end : Option ℕ)
    → Within current end
    → ¬ Paged
    → Asked Paged current page end false
        (some (record { to_block = none; label = open_label current end }))
open_range-Asked current page none w n = to_tail w n refl
open_range-Asked current page (some end) w n = unbounded end w n refl refl

size_mode-Asked :
    (current page : ℕ) (end : Option ℕ)
    → current < 2 ^ 64
    → page < 2 ^ 64
    → Within current end
    → Asked (0 < page) current page end false (
        if page == 0
        then some (record { to_block = none; label = open_label current end })
        else page_range current page end)
size_mode-Asked current page end c b w = elim (Bool-cases (page == 0)) [
  | inl yes_ ↦ rw yes_ (open_range-Asked current page end w (λ p. ground arith))
  | inr no_ ↦
      let p : 0 < page = ground arith in rw no_ (page_range-Asked current page end false c b p p w)
]

no_page : (page adaptive : ℕ) → effective_page_size page adaptive false ≡ page
no_page page adaptive = ground arith

no_paging : (a b : Bool) → (a && false && b) ≡ false
no_paging true b = refl
no_paging false b = refl

-- The test of the code for one page with cursors.
abbrev is_paged : ℕ → ℕ → ℕ → Bool
is_paged current effective last_finalized =
    ltb 0 effective
    && true
    && ((last_finalized == 0) || ltb (word (current + effective)) last_finalized)

is_paged-IsPaged :
    (sum effective last_finalized : ℕ)
    → (ltb 0 effective && true && ((last_finalized == 0) || ltb sum last_finalized)) ≡ true
    → (0 < effective) × ((last_finalized ≡ 0) ⊎ (sum < last_finalized))
is_paged-IsPaged sum effective last_finalized h = ground arith

IsPaged-is_paged :
    (sum effective last_finalized : ℕ)
    → (ltb 0 effective && true && ((last_finalized == 0) || ltb sum last_finalized)) ≡ false
    → ¬ ((0 < effective) × ((last_finalized ≡ 0) ⊎ (sum < last_finalized)))
IsPaged-is_paged sum effective last_finalized h (p, inl z) = ground arith
IsPaged-is_paged sum effective last_finalized h (p, inr l) = ground arith

request-Asked :
    (current page adaptive last_finalized : ℕ) (end : Option ℕ) (cursor_mode : Bool)
    → current < 2 ^ 64
    → effective_page_size page adaptive cursor_mode < 2 ^ 64
    → Asked
        (IsPaged current page
          (effective_page_size page adaptive cursor_mode)
          last_finalized
          cursor_mode)
        current
        (effective_page_size page adaptive cursor_mode)
        end
        cursor_mode
        (next_producer_request_range current page adaptive last_finalized end cursor_mode)
unfolding next_producer_request_range next_request_range
request-Asked current page adaptive last_finalized end false c b =
    elim (Bool-cases (past_end current end)) [
      | inl yes_ ↦ rw yes_ (passed (past_end-Within current end yes_))
      | inr no_ ↦
          rw (no_, no_page page adaptive, no_paging (ltb 0 page) _)
            (size_mode-Asked current page end c (rw (no_page page adaptive) at b)
              (Within-past_end current end no_))
    ]
request-Asked current page adaptive last_finalized end true c b =
    let effective = effective_page_size page adaptive true in
    elim (Bool-cases (past_end current end)) [
      | inl yes_ ↦ rw yes_ (passed (past_end-Within current end yes_))
      | inr no_ ↦ elim (Bool-cases (is_paged current effective last_finalized)) [
        | inl some_ ↦
            let paged_ =
              is_paged-IsPaged (word (current + effective)) effective last_finalized some_ in
            rw (no_, some_)
              (page_range-Asked current effective end true c b paged_.0 paged_
                (Within-past_end current end no_))
        | inr none_ ↦
            rw (no_, none_)
              (cursor_range-Asked current effective end (Within-past_end current end no_)
                (IsPaged-is_paged (word (current + effective)) effective last_finalized none_))
      ]
    ]

pub next_producer_request_range-Asked :
    (current page adaptive last_finalized : ℕ) (end : Option ℕ) (cursor_mode : Bool)
    → current < 2 ^ 64
    → page_in page adaptive cursor_mode < 2 ^ 64
    → Asked
        (IsPaged current page (page_in page adaptive cursor_mode) last_finalized cursor_mode)
        current
        (page_in page adaptive cursor_mode)
        end
        cursor_mode
        (next_producer_request_range current page adaptive last_finalized end cursor_mode)
next_producer_request_range-Asked current page adaptive last_finalized end cursor_mode c =
    subst
      (λ n.
        n < 2 ^ 64
        → Asked (IsPaged current page n last_finalized cursor_mode) current n end cursor_mode
            (next_producer_request_range current page adaptive last_finalized end cursor_mode))
      (effective_page_size-page_in page adaptive cursor_mode)
      (request-Asked current page adaptive last_finalized end cursor_mode c)
