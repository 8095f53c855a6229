-- ===== src/FlatCold/Calls.antt =====
-- `allocSlot` and the calls of the store. `size` is decreased for a slot in use alone, which it counts.
use sqd_go.Base.{
  ℕ, zero, suc, ◌+◌, ◌-◌, ◌%◌, Bool, true, false, not, Option, none, some, List, leb, ◌==◌,
  if◌then◌else◌, length, replicate, ◌>>=◌,
}
use sqd_go.ColdFilter.{word}
use sqd_go.FlatCold.{FlatCold, write, copy, init, lookup, idx_insert, idx_unlink}

-- The hand moves on, and with `full` the slot under it loses its second chance.
abbrev pub advance : FlatCold → FlatCold
advance f = record f { hand = word (f.hand + 1) }

abbrev pub pass_over : Bool → FlatCold → FlatCold
pass_over full f =
    if full then record (advance f) { ref = write f.ref (f.hand % f.capacity) false } else advance f

-- The loop of `allocSlot`, on fuel.
unfoldable pub alloc_loop : ℕ → Bool → FlatCold → Option (ℕ × FlatCold)
unfolding idx_unlink
alloc_loop zero full f = none
alloc_loop (suc fuel) full f =
    let idx = f.hand % f.capacity in
    let rest = alloc_loop fuel full (pass_over full f) in
    if not (f.in_use idx)
    then some (idx, advance f)
    else if not full
    then rest
    else if f.ref idx
    then rest
    else do
      g ← idx_unlink (advance f) (f.slot_key idx) idx
      some (idx, record g { in_use = write g.in_use idx false; size = g.size - 1 })

unfoldable pub alloc_slot : FlatCold → Option (ℕ × FlatCold)
unfolding alloc_loop
alloc_slot f =
    if f.capacity == 0 then none else alloc_loop (suc f.capacity) (leb f.capacity f.size) f

-- The copies into a slot and its bookkeeping, before the index learns of it.
unfoldable pub fill : FlatCold → ℕ → List ℕ → List ℕ → FlatCold
unfolding copy
fill f slot key value = record f {
  slot_key = write f.slot_key slot (copy (f.slot_key slot) key);
  slot_val = write f.slot_val slot (copy (f.slot_val slot) value);
  in_use = write f.in_use slot true;
  ref = write f.ref slot false;
}

-- `put` once the store has its strides.
unfoldable pub put_ready : FlatCold → List ℕ → List ℕ → Option FlatCold
unfolding lookup alloc_slot fill idx_insert
put_ready f key value = do
  found ← lookup f key
  elim found [
    | some i ↦ some (record f {
      slot_val = write f.slot_val i (copy (f.slot_val i) value);
      ref = write f.ref i true;
    })
    | none ↦ do
      (slot, g) ← alloc_slot f
      let h = idx_insert (fill g slot key value) key slot in some (record h { size = h.size + 1 })
  ]

unfoldable pub put : FlatCold → List ℕ → List ℕ → Option FlatCold
unfolding init put_ready
put f key value = do
  g ← if f.key_len == 0 then init f (length key) (length value) else some f
  put_ready g key value

-- The answer, what `dst` holds afterwards, and the store.
unfoldable pub get_into : FlatCold → List ℕ → List ℕ → Option (Bool × List ℕ × FlatCold)
unfolding lookup copy
get_into f dst key = do
  found ← lookup f key
  some (elim found [
    | none ↦ (false, dst, f)
    | some i ↦ (true, copy dst (f.slot_val i), record f { ref = write f.ref i true })
  ])

-- `none` inside for a key that is not held.
unfoldable pub get : FlatCold → List ℕ → Option (Option (List ℕ) × FlatCold)
unfolding lookup copy
get f key = do
  found ← lookup f key
  some (elim found [
    | none ↦ (none, f)
    | some i ↦
        (some (copy (replicate f.val_len 0) (f.slot_val i)), record f { ref = write f.ref i true })
  ])

unfoldable pub del : FlatCold → List ℕ → Option (Bool × FlatCold)
unfolding lookup idx_unlink
del f key = do
  found ← lookup f key
  elim found [
    | none ↦ some (false, f)
    | some i ↦ do
      g ← idx_unlink f key i
      some (
        true,
        record g { in_use = write g.in_use i false; ref = write g.ref i false; size = g.size - 1 },
      )
  ]

unfoldable pub len : FlatCold → ℕ
len f = f.size
