-- ===== src/BTreeMap/Sorted.antt =====
-- Every operation keeps the keys in order.
use Prim.Native.Nat.Ordering.{lt}
use rs_converge.Prelude.{◌≡◌, Bool, [], ◌∷◌, arith, All-imp}
use rs_converge.Order.{Ord}
use rs_converge.BTreeMap.{Map, insert, remove, select, Above, IsSorted}

module _ {ℓ κ} {K : Type ℓ} {V : Type κ} ⦃o : Ord K⦄ where
  pub Above-lower : (k j : K) (m : Map K V) → o.cmp k j ≡ lt → Above j m → Above k m
  Above-lower k j m h = All-imp (λ e. o.cmp_trans k j e.0 h) m

  Above-insert :
      (a k : K) (v : V) (m : Map K V) → o.cmp a k ≡ lt → Above a m → Above a (insert k v m)
  unfolding insert
  Above-insert a k v [] h b = (h, tt)
  Above-insert a k v ((j, w) ∷ m) h b = ground (arith, Above-insert a k v m)

  pub insert-IsSorted : (k : K) (v : V) (m : Map K V) → IsSorted m → IsSorted (insert k v m)
  unfolding insert
  insert-IsSorted k v [] s = (tt, tt)
  insert-IsSorted k v ((j, w) ∷ m) s =
      ground
        (arith, insert-IsSorted k v m, Above-insert j k v m, Above-lower k j m, o.cmp_reverse k j)

  Above-remove : (a k : K) (m : Map K V) → Above a m → Above a (remove k m)
  unfolding remove
  Above-remove a k [] b = tt
  Above-remove a k ((j, w) ∷ m) b = ground (arith, Above-remove a k m)

  pub remove-IsSorted : (k : K) (m : Map K V) → IsSorted m → IsSorted (remove k m)
  unfolding remove
  remove-IsSorted k [] s = tt
  remove-IsSorted k ((j, w) ∷ m) s = ground (arith, remove-IsSorted k m, Above-remove j k m)

  Above-select : (a : K) (p : K → Bool) (m : Map K V) → Above a m → Above a (select p m)
  unfolding select
  Above-select a p [] b = tt
  Above-select a p ((j, w) ∷ m) b = ground (arith, Above-select a p m)

  pub select-IsSorted : (p : K → Bool) (m : Map K V) → IsSorted m → IsSorted (select p m)
  unfolding select
  select-IsSorted p [] s = tt
  select-IsSorted p ((j, w) ∷ m) s = ground (arith, select-IsSorted p m, Above-select j p m)
