-- ===== src/Rlp/Arrays.antt =====
-- Arrays: what holds of the items holds of the array.
use vechain_sdk_js.Prelude.{ℕ, suc, ◌≡◌, refl}
use vechain_sdk_js.Result.{Result, ok, Segment, item, Context, >>=-eq-ok}
use vechain_sdk_js.Rlp.Value.{Value, arr, Items, nil, cons, Packed, node, Parts, none_left, part}
use vechain_sdk_js.Rlp.Profiler.{pack_items, unpack_parts, pack_array, unpack_array}
use vechain_sdk_js.Rlp.Conditions.{AllItems}

module _ {T : Value → Type 0} (f : Segment → Value → Result Packed)
    (g : Segment → Packed → Result Value)
    (ih : (s : Segment) (v : Value) (p : Packed)
      → T v
      → f s v ≡ ok p
      → (w : Value) × (g s p ≡ ok w) × (f s w ≡ ok p)) where
  items_stable :
      (i : ℕ) (vs : Items) (ps : Parts)
      → AllItems T vs
      → pack_items f i vs ≡ ok ps
      → (ws : Items) × (unpack_parts g i ps ≡ ok ws) × (pack_items f i ws ≡ ok ps)
  unfolding pack_items unpack_parts
  items_stable i nil none_left t h = (nil, refl, refl)
  items_stable i nil (part p ps) t h = cc
  items_stable i (cons v vs) ps t h =
      let (p, first, later) = >>=-eq-ok (f (item i) v) _ h in
      let (rest, others, same) = >>=-eq-ok (pack_items f (suc i) vs) _ later in
      let (w, read, again) = ih (item i) v p t.0 first in
      let (ws, reads, agains) = items_stable (suc i) vs rest t.1 others in
      let same' : part p rest ≡ ps = cc in
      rw (← same') (cons w ws, rw (read, reads) refl, rw (again, agains) refl)

  pub array_stable :
      (v : Value) (context : Context) (p : Packed)
      → ((vs : Items) → v ≡ arr vs → AllItems T vs)
      → pack_array f v context ≡ ok p
      → (w : Value) × (unpack_array g p context ≡ ok w) × (pack_array f w context ≡ ok p)
  unfolding pack_array unpack_array
  array_stable (arr vs) context p t h =
      let (ps, packed, same) = >>=-eq-ok (pack_items f 0 vs) _ h in
      let (ws, read, again) = items_stable 0 vs ps (t vs refl) packed in
      let same' : node ps ≡ p = cc in rw (← same') (arr ws, rw read refl, rw again refl)
  array_stable v context p t h = cc
