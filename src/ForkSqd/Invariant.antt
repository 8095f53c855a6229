-- ===== src/ForkSqd/Invariant.antt =====
-- The tracker's invariant: its recent blocks ascend, lie above the high watermark, and are no more
-- than its limit.
use sqd_go.Base.{
  ℕ, zero, suc, ◌-◌, ◌≤◌, ◌<◌, ◌≡◌, refl, Bool, false, Option, none, ℤ, pos, negsuc, some, List, [],
  ◌∷◌, inl, inr, Bool-cases, arith, last?, ltb, leb, length, length-drop, last?-eq_none, ◌==◌,
}
use sqd_go.Chain.{BlockRef}
use sqd_go.Chain.Order.{
  Above, AboveHead, Ascending, Ascending-append, Ascending-drop, Ascending-set_last,
}
use sqd_go.Fork.{below_finalized}
use sqd_go.Fork.Invariant.{AboveHead-append, AboveHead-set_last, AboveHead-drop}
use sqd_go.ForkSqd.{
  Tracker, cap_recent, set_limit, positive_limit, new, filter_recent, prune_recent, init,
  append_last, covered, append_recent, append_each, raise, add_rollback_chain, add_batch,
  apply_batch, truncate_after, last_or, head_from_chain, cut_current, effective_finalized_head,
  current_after, rollback_chain,
}

pub record IsOrdered (watermark : Option BlockRef) (recent : List BlockRef) : Type 0 where
  pub ascending : Ascending recent
  pub above : AboveHead watermark recent

pub record IsValid (t : Tracker) : Type 0 where
  pub limited : 0 < t.limit
  pub ordered : IsOrdered t.watermark t.recent
  pub bounded : length t.recent ≤ t.limit

cap_recent-IsOrdered :
    (limit : ℕ) (watermark : Option BlockRef) (bs : List BlockRef)
    → IsOrdered watermark bs
    → IsOrdered watermark (cap_recent limit bs)
unfolding cap_recent
cap_recent-IsOrdered zero watermark bs v = v
cap_recent-IsOrdered (suc limit) watermark bs v = elim (Bool-cases (leb (length bs) (suc limit))) [
  | inl fits ↦ rw fits v
  | inr over ↦ rw over (record {
    ascending = Ascending-drop _ bs v.ascending;
    above = AboveHead-drop watermark _ bs v.above;
  })
]

length-cap_recent :
    (limit : ℕ) (bs : List BlockRef) → 0 < limit → length (cap_recent limit bs) ≤ limit
unfolding cap_recent
length-cap_recent zero bs h = absurd (omega arith)
length-cap_recent (suc limit) bs h = ground (arith, length-drop (length bs - suc limit) bs)

module _ (keep : BlockRef → Bool) where
  pub filter_recent-Above :
      (n : ℕ) (bs : List BlockRef) → Above n bs → Above n (filter_recent keep bs)
  unfolding filter_recent
  filter_recent-Above n [] a = tt
  filter_recent-Above n (b ∷ bs) a = ground (arith, filter_recent-Above n bs a.1)

  pub filter_recent-Ascending :
      (bs : List BlockRef) → Ascending bs → Ascending (filter_recent keep bs)
  unfolding filter_recent
  filter_recent-Ascending [] a = tt
  filter_recent-Ascending (b ∷ bs) a =
      ground (arith, filter_recent-Ascending bs a.1, filter_recent-Above b.number bs a.0)

  pub filter_recent-AboveHead :
      (w : Option BlockRef) (bs : List BlockRef)
      → AboveHead w bs
      → AboveHead w (filter_recent keep bs)
  filter_recent-AboveHead none bs a = tt
  filter_recent-AboveHead (some f) bs a = filter_recent-Above f.number bs a

  pub length-filter_recent : (bs : List BlockRef) → length (filter_recent keep bs) ≤ length bs
  unfolding filter_recent
  length-filter_recent [] = omega arith
  length-filter_recent (b ∷ bs) = ground (arith, length-filter_recent bs)

filter-Above : (n : ℕ) (bs : List BlockRef) → Above n (filter_recent (λ b. ltb n b.number) bs)
unfolding filter_recent
filter-Above n [] = tt
filter-Above n (b ∷ bs) = ground (arith, filter-Above n bs)

prune_recent-IsOrdered :
    (w : Option BlockRef) (bs : List BlockRef) → Ascending bs → IsOrdered w (prune_recent w bs)
unfolding prune_recent
prune_recent-IsOrdered none bs up = record { ascending = up; above = tt }
prune_recent-IsOrdered (some f) bs up = record {
  ascending = filter_recent-Ascending _ bs up;
  above = filter-Above f.number bs;
}

covered_same :
    (x : Option BlockRef) (b : BlockRef) → covered x b ≡ false → below_finalized x b ≡ false
covered_same none b h = refl
covered_same (some f) b h = h

append_last-IsOrdered :
    (w : Option BlockRef) (bs : List BlockRef) (o : Option BlockRef) (b : BlockRef)
    → last? bs ≡ o
    → covered w b ≡ false
    → IsOrdered w bs
    → IsOrdered w (append_last bs o b)
unfolding append_last
append_last-IsOrdered w bs none b e h v = record {
  ascending = rw (last?-eq_none bs e) (tt, tt);
  above = AboveHead-append w bs b v.above (covered_same w b h);
}
append_last-IsOrdered w bs (some last) b e h v = elim (Bool-cases (ltb b.number last.number)) [
  | inl older ↦ rw older v
  | inr newer ↦ elim (Bool-cases (b.number == last.number)) [
    | inl same ↦
        rw (newer, same)
          (record {
            ascending = Ascending-set_last bs b v.ascending e (ground arith);
            above = AboveHead-set_last w bs b v.above (covered_same w b h);
          })
    | inr other ↦
        rw (newer, other)
          (record {
            ascending = Ascending-append bs b v.ascending e (ground arith);
            above = AboveHead-append w bs b v.above (covered_same w b h);
          })
  ]
]

append_each-IsOrdered :
    (w : Option BlockRef) (bs cs : List BlockRef)
    → IsOrdered w bs
    → IsOrdered w (append_each w bs cs)
unfolding append_each append_recent
append_each-IsOrdered w bs [] v = v
append_each-IsOrdered w bs (c ∷ cs) v = append_each-IsOrdered w (append_recent w bs c) cs step
  where
    step : IsOrdered w (append_recent w bs c)
    step = elim (Bool-cases (covered w c)) [
      | inl old ↦ rw old v
      | inr newer ↦ rw newer (append_last-IsOrdered w bs (last? bs) c refl newer v)
    ]

add_rollback_chain-IsValid :
    (t : Tracker) (finalized : Option BlockRef) (chain : List BlockRef)
    → 0 < t.limit
    → Ascending t.recent
    → IsValid (add_rollback_chain t finalized chain)
unfolding add_rollback_chain
add_rollback_chain-IsValid t finalized chain p up = record {
  limited = p;
  ordered =
      cap_recent-IsOrdered t.limit w _
        (append_each-IsOrdered w _ chain (prune_recent-IsOrdered w t.recent up));
  bounded = length-cap_recent t.limit _ p;
}
  where
    w : Option BlockRef
    w = raise t.watermark finalized

-- Both ways to add a batch keep the invariant, whatever the blocks and whatever their order.
pub batch-IsValid :
    (t : Tracker) (finalized : Option BlockRef) (blocks : List BlockRef)
    → IsValid t
    → IsValid (apply_batch t finalized blocks) × IsValid (add_batch t finalized blocks)
unfolding apply_batch add_batch
batch-IsValid t finalized blocks v =
    let effective = effective_finalized_head finalized blocks in
    let applied = record t { current = current_after t.current effective blocks } in
    let added = record t { current = last_or t.current blocks } in
    (
      add_rollback_chain-IsValid applied effective (rollback_chain effective blocks) v.limited
          v.ordered.ascending,
      with_current (add_rollback_chain added finalized blocks)
          (head_from_chain (add_rollback_chain added finalized blocks))
          (add_rollback_chain-IsValid added finalized blocks v.limited v.ordered.ascending),
    )
  where
    with_current :
        (u : Tracker) (c : Option BlockRef) → IsValid u → IsValid (record u { current = c })
    with_current u c w = record { limited = w.limited; ordered = w.ordered; bounded = w.bounded }

positive_limit-pos : (n : ℤ) → 0 < positive_limit n
unfolding positive_limit
positive_limit-pos (pos zero) = omega arith
positive_limit-pos (pos (suc n)) = omega arith
positive_limit-pos (negsuc n) = omega arith

-- `SetLimit` makes the limit positive, whatever it is given, and so a tracker whose recent blocks
-- are in order valid.
set_limit-IsValid : (t : Tracker) (n : ℤ) → IsOrdered t.watermark t.recent → IsValid (set_limit t n)
unfolding set_limit
set_limit-IsValid t n v = record {
  limited = positive_limit-pos n;
  ordered = cap_recent-IsOrdered (positive_limit n) t.watermark t.recent v;
  bounded = length-cap_recent (positive_limit n) t.recent (positive_limit-pos n);
}

new-IsValid : (n : ℤ) → IsValid (new n)
unfolding new
new-IsValid n =
    set_limit-IsValid (record { current = none; recent = []; watermark = none; limit = 0 }) n
      (record { ascending = tt; above = tt })

init-IsValid :
    (t : Tracker) (current finalized : Option BlockRef) (recent : List BlockRef)
    → 0 < t.limit
    → Ascending recent
    → IsValid (init t current finalized recent)
unfolding init
init-IsValid t current finalized recent p up = record {
  limited = p;
  ordered = cap_recent-IsOrdered t.limit finalized _ (prune_recent-IsOrdered finalized recent up);
  bounded = length-cap_recent t.limit _ p;
}

-- No recent block is above the cut.
abbrev UpTo : ℕ → List BlockRef → Type 0
UpTo n [] = Unit {0}
UpTo n (b ∷ bs) = (b.number ≤ n) × UpTo n bs

abbrev CurrentUpTo : ℕ → Option BlockRef → Type 0
CurrentUpTo n none = Unit {0}
CurrentUpTo n (some c) = c.number ≤ n

-- Cutting a tracker at a block keeps the invariant, and leaves neither a recent block nor a current
-- one above it.
truncate_after-IsValid :
    (t : Tracker) (cursor : BlockRef)
    → IsValid t
    → IsValid (truncate_after t cursor)
      × UpTo cursor.number (truncate_after t cursor).recent
      × CurrentUpTo cursor.number (truncate_after t cursor).current
unfolding truncate_after filter_recent
truncate_after-IsValid t cursor v = (
  record {
    limited = v.limited;
    ordered = record {
      ascending = filter_recent-Ascending _ t.recent v.ordered.ascending;
      above = filter_recent-AboveHead _ t.watermark t.recent v.ordered.above;
    };
    bounded =
        omega (arith, length-filter_recent (λ b. leb b.number cursor.number) t.recent, v.bounded);
  },
  up_to t.recent,
  cut t.current,
)
  where
    up_to :
        (bs : List BlockRef)
        → UpTo cursor.number (filter_recent (λ b. leb b.number cursor.number) bs)
    up_to [] = tt
    up_to (b ∷ bs) = ground (arith, up_to bs)

    cut : (o : Option BlockRef) → CurrentUpTo cursor.number (cut_current o cursor)
    cut none = tt
    cut (some c) = ground arith
