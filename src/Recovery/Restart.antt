-- ===== src/Recovery/Restart.antt =====
-- The base that is selected from a saved state, and the state that is written for a base.
use sqd_go.Base.{
  ℕ, ◌<◌, ◌≤◌, true, false, Option, none, some, List, [], ◌∷◌, leb, str_eq, ◌≡◌, refl, ap, subst,
  inl, inr, ◌↔◌, Bool-cases, arith,
}
use sqd_go.Chain.{BlockRef}
use sqd_go.Recovery.{
  SyncCursor, SyncState, RecoveryBase, sync_cursor_to_block_ref, sync_cursors_to_block_refs,
  block_refs_to_sync_cursors, select_recovery_base, select_from, recovery_sync_state,
  block_ref_ptr_to_sync_cursor, keep_unfinalized, filter_unfinalized_rollback_chain,
}

-- The blocks of those cursors of a list that have a hash, in order.
pub data Hashed : List SyncCursor → List BlockRef → Type 0 where
  no_cursor : Hashed [] []
  with_hash :
      (c : SyncCursor) (cs : List SyncCursor) (bs : List BlockRef)
      → str_eq c.hash "" ≡ false
      → Hashed cs bs
      → Hashed (c ∷ cs) (record { number = c.number; hash = c.hash } ∷ bs)
  without_hash :
      (c : SyncCursor) (cs : List SyncCursor) (bs : List BlockRef)
      → str_eq c.hash "" ≡ true
      → Hashed cs bs
      → Hashed (c ∷ cs) bs

-- There is no finalized cursor, or it has no hash.
pub data IsBlank : Option SyncCursor → Type 0 where
  missing : IsBlank none
  blank : (c : SyncCursor) → str_eq c.hash "" ≡ true → IsBlank (some c)

-- The block of a cursor, where it has a hash.
pub data Named : SyncCursor → Option BlockRef → Type 0 where
  named :
      (c : SyncCursor)
      → str_eq c.hash "" ≡ false
      → Named c (some (record { number = c.number; hash = c.hash }))
  unnamed : (c : SyncCursor) → str_eq c.hash "" ≡ true → Named c none

-- The base to recover from: the finalized cursor alone where it has a hash, else the current cursor, with
-- the blocks of the rollback chain.
pub data Selected (saved : SyncState) : RecoveryBase → Type 0 where
  at_finalized :
      (f : SyncCursor)
      → saved.finalized ≡ some f
      → str_eq f.hash "" ≡ false
      → Selected saved (record {
        number = f.number;
        hash = f.hash;
        from_finalized = true;
        tracker_current = some (record { number = f.number; hash = f.hash });
        tracker_finalized = some (record { number = f.number; hash = f.hash });
        tracker_rollback_chain = [];
      })
  at_current :
      (current : Option BlockRef) (refs : List BlockRef)
      → IsBlank saved.finalized
      → Named saved.current current
      → Hashed saved.rollback_chain refs
      → Selected saved (record {
        number = saved.current.number;
        hash = saved.current.hash;
        from_finalized = false;
        tracker_current = current;
        tracker_finalized = none;
        tracker_rollback_chain = refs;
      })

abbrev pub IsAbove : ℕ → Option BlockRef → Type 0
IsAbove n none = 0 ≤ n
IsAbove n (some f) = f.number < n

-- The cursors of those blocks of a list that are above the finalized one, in order.
pub data Unfinalized (finalized : Option BlockRef) : List BlockRef → List SyncCursor → Type 0 where
  no_block : Unfinalized finalized [] []
  above :
      (b : BlockRef) (bs : List BlockRef) (cs : List SyncCursor)
      → IsAbove b.number finalized
      → Unfinalized finalized bs cs
      → Unfinalized finalized (b ∷ bs) (record { number = b.number; hash = b.hash } ∷ cs)
  not_above :
      (b : BlockRef) (bs : List BlockRef) (cs : List SyncCursor)
      → ¬ IsAbove b.number finalized
      → Unfinalized finalized bs cs
      → Unfinalized finalized (b ∷ bs) cs

-- The cursor of a block, or neither.
pub data Again : Option BlockRef → Option SyncCursor → Type 0 where
  neither : Again none none
  again : (b : BlockRef) → Again (some b) (some (record { number = b.number; hash = b.hash }))

-- The state that is written for a base: its number and hash, its finalized block, and the cursors of its
-- rollback chain above that.
pub record Written (base : RecoveryBase) (state : SyncState) : Type 0 where
  pub at_number : state.current.number ≡ base.number
  pub at_hash : state.current.hash ≡ base.hash
  pub keeps_finalized : Again base.tracker_finalized state.finalized
  pub keeps_chain :
      Unfinalized base.tracker_finalized base.tracker_rollback_chain state.rollback_chain

refs-Hashed : (cs : List SyncCursor) → Hashed cs (sync_cursors_to_block_refs cs)
unfolding sync_cursors_to_block_refs
refs-Hashed [] = no_cursor
refs-Hashed (c ∷ cs) = elim (Bool-cases (str_eq c.hash "")) [
  | inl yes_ ↦ rw yes_ (without_hash c cs _ yes_ (refs-Hashed cs))
  | inr no_ ↦ rw no_ (with_hash c cs _ no_ (refs-Hashed cs))
]

ref-Named : (c : SyncCursor) → Named c (sync_cursor_to_block_ref (some c))
unfolding sync_cursor_to_block_ref
ref-Named c = elim (Bool-cases (str_eq c.hash "")) [
  | inl yes_ ↦ rw yes_ (unnamed c yes_)
  | inr no_ ↦ rw no_ (named c no_)
]

select_from-Selected :
    (saved : SyncState) (f : Option SyncCursor)
    → saved.finalized ≡ f
    → Selected saved (select_from saved (sync_cursor_to_block_ref f))
unfolding select_from sync_cursor_to_block_ref
select_from-Selected saved none e =
    at_current _ _ (rw e missing) (ref-Named saved.current) (refs-Hashed saved.rollback_chain)
select_from-Selected saved (some f) e = elim (Bool-cases (str_eq f.hash "")) [
  | inl yes_ ↦ rw yes_ (
      at_current _ _ (rw e (blank f yes_)) (ref-Named saved.current)
        (refs-Hashed saved.rollback_chain))
  | inr no_ ↦ rw no_ (at_finalized f e no_)
]

kept-Unfinalized :
    (f : BlockRef) (bs : List BlockRef)
    → Unfinalized (some f) bs (block_refs_to_sync_cursors (keep_unfinalized bs f.number))
unfolding keep_unfinalized block_refs_to_sync_cursors
kept-Unfinalized f [] = no_block
kept-Unfinalized f (b ∷ bs) = elim (Bool-cases (leb b.number f.number)) [
  | inl yes_ ↦ rw yes_ (not_above b bs _ (λ l. ground arith) (kept-Unfinalized f bs))
  | inr no_ ↦ rw no_ (above b bs _ (ground arith) (kept-Unfinalized f bs))
]

all-Unfinalized : (bs : List BlockRef) → Unfinalized none bs (block_refs_to_sync_cursors bs)
unfolding block_refs_to_sync_cursors
all-Unfinalized [] = no_block
all-Unfinalized (b ∷ bs) = above b bs _ (omega arith) (all-Unfinalized bs)

filter-Unfinalized :
    (f : Option BlockRef) (bs : List BlockRef)
    → Unfinalized f bs (block_refs_to_sync_cursors (filter_unfinalized_rollback_chain bs f))
unfolding filter_unfinalized_rollback_chain
filter-Unfinalized none bs = all-Unfinalized bs
filter-Unfinalized (some f) bs = kept-Unfinalized f bs

finalized-Again : (f : Option BlockRef) → Again f (block_ref_ptr_to_sync_cursor f)
unfolding block_ref_ptr_to_sync_cursor
finalized-Again none = neither
finalized-Again (some f) = again f

recovery_sync_state-Written : (base : RecoveryBase) → Written base (recovery_sync_state base)
unfolding recovery_sync_state
recovery_sync_state-Written base = record {
  at_number = refl;
  at_hash = refl;
  keeps_finalized = finalized-Again base.tracker_finalized;
  keeps_chain = filter-Unfinalized base.tracker_finalized base.tracker_rollback_chain;
}

Hashed-refs :
    (cs : List SyncCursor) (bs : List BlockRef) → Hashed cs bs → sync_cursors_to_block_refs cs ≡ bs
unfolding sync_cursors_to_block_refs
Hashed-refs _ _ no_cursor = refl
Hashed-refs _ _ (with_hash c cs bs h rest) = rw (h, Hashed-refs cs bs rest) refl
Hashed-refs _ _ (without_hash c cs bs h rest) = rw (h, Hashed-refs cs bs rest) refl

Named-ref :
    (c : SyncCursor) (b : Option BlockRef) → Named c b → sync_cursor_to_block_ref (some c) ≡ b
unfolding sync_cursor_to_block_ref
Named-ref _ _ (named c h) = rw h refl
Named-ref _ _ (unnamed c h) = rw h refl

IsBlank-ref : (f : Option SyncCursor) → IsBlank f → sync_cursor_to_block_ref f ≡ none
unfolding sync_cursor_to_block_ref
IsBlank-ref _ missing = refl
IsBlank-ref _ (blank c h) = rw h refl

Selected-base :
    (saved : SyncState) (base : RecoveryBase)
    → Selected saved base
    → select_from saved (sync_cursor_to_block_ref saved.finalized) ≡ base
unfolding select_from
Selected-base saved _ (at_finalized f e h) = rw (e, Named-ref f _ (named f h)) refl
Selected-base saved _ (at_current c refs none_ current_ chain) =
    rw
      (
        IsBlank-ref saved.finalized none_,
        Named-ref saved.current c current_,
        Hashed-refs saved.rollback_chain refs chain,
      )
      refl

-- A base is selected from a saved state exactly where it is that of the finalized cursor, with an empty
-- rollback chain, and this cursor has a hash; or where there is none with a hash, and it is that of the
-- current cursor, with no finalized block, and with the blocks of those cursors of the rollback chain that
-- have a hash. The state written for any base has its number and hash, its finalized block, and of its
-- rollback chain the blocks above the finalized one, or all where there is none.
pub select_recovery_base-Selected :
    (saved : SyncState) (base : RecoveryBase)
    → ((select_recovery_base (some saved) ≡ some base) ↔ Selected saved base)
      × Written base (recovery_sync_state base)
unfolding select_recovery_base
select_recovery_base-Selected saved base = (
  (
    (λ e.
        let same : select_from saved (sync_cursor_to_block_ref saved.finalized) ≡ base = cc in
        subst (Selected saved) same (select_from-Selected saved saved.finalized refl)),
    (λ selected. ap some (Selected-base saved base selected)),
  ),
  recovery_sync_state-Written base,
)
