-- ===== src/Ble/Notified.antt =====
-- What `notify` reports.
use jedge.Base.{
  ℕ, suc, ◌<◌, ◌≡◌, ◌≢◌, ◌==◌, if_both, Bool, true, false, List, [], ◌∷◌, ◌++◌, length, Option,
  none, some, arith, refl, ap, ◌⊎◌, inl, inr, Bool-cases,
}
use jedge.Ble.Characteristic.{Status, Gatts, Characteristic}
use jedge.Ble.Notify.{Report, confirmed, notify_peer, report, notify_peers}

-- no report of a refused send
abbrev pub IsDelivered : List Report → Type 0
IsDelivered [] = Unit
IsDelivered ((Status.error_gatt, _) ∷ _) = ⊥
IsDelivered (_ ∷ rs) = IsDelivered rs

-- one report for each peer, or one for each peer up to a refused send
abbrev pub Served : ℕ → List Report → Type 0
Served n rs =
    (IsDelivered rs × (length rs ≡ n))
    ⊎ (before : List Report) × (err : ℕ) × (rs ≡ before ++ (Status.error_gatt, err) ∷ [])
      × IsDelivered before
      × (err ≢ 0)
      × (length before < n)

-- a report that is not of a refused send
kept_serving :
    (n : ℕ) (r : Report) (rs : List Report)
    → ((x : List Report) → IsDelivered x → IsDelivered (r ∷ x))
    → Served n rs
    → Served (suc n) (r ∷ rs)
kept_serving n r rs h (inl (d, e)) = inl (h rs d, omega arith)
kept_serving n r rs h (inr (before, err, e, d, z, k)) =
    inr (r ∷ before, err, ap (λ l. r ∷ l) e, h before d, z, omega arith)

confirmed_kept : (a : Option ℕ) (x : List Report) → IsDelivered x → IsDelivered (confirmed a ∷ x)
confirmed_kept none x h = h
confirmed_kept (some code) x h = if_both (λ r. IsDelivered (r ∷ x)) (code == 0) h h

module _ {gatts : Gatts} where
  -- The send to a peer is refused, or the loop goes on.
  notify_peer_cases :
      (b : Bool) (conn : ℕ) (c : Characteristic gatts)
      → ((notify_peer b conn c).0 ≡ false)
          × ((err : ℕ) × ((notify_peer b conn c).1 ≡ (Status.error_gatt, err)) × (err ≢ 0))
        ⊎ ((notify_peer b conn c).0 ≡ true)
          × ((x : List Report) → IsDelivered x → IsDelivered ((notify_peer b conn c).1 ∷ x))
  unfolding notify_peer
  notify_peer_cases true conn c =
      elim (Bool-cases ((gatts.send_indicate conn c.handle c.value.value false c.dev).0 == 0)) [
        | inr bad ↦ inl (
          rw bad refl,
          (
            (gatts.send_indicate conn c.handle c.value.value false c.dev).0,
            rw bad refl,
            ground arith,
          ),
        )
        | inl ok ↦ inr (rw ok refl, rw ok (λ x h. h))
      ]
  notify_peer_cases false conn c =
      let (err, d) =
        gatts.send_indicate conn c.handle c.value.value true (gatts.take_confirm c.dev) in
      elim (Bool-cases (err == 0)) [
        | inr bad ↦ inl (
          rw bad refl,
          (
            (gatts.send_indicate conn c.handle c.value.value true (gatts.take_confirm c.dev)).0,
            rw bad refl,
            ground arith,
          ),
        )
        | inl ok ↦ inr (rw ok refl, rw ok (confirmed_kept (gatts.timed_wait d).0))
      ]

  pub notify_peers-Served :
      (b : Bool) (peers : List ℕ) (c : Characteristic gatts)
      → Served (length peers) (notify_peers b peers c).0
  unfolding notify_peers
  notify_peers-Served b [] c = inl (tt, refl)
  notify_peers-Served b (conn ∷ peers) c =
      let (more, r, d) = notify_peer b conn c in
      let later = notify_peers-Served b peers (report r (record c { dev = d })) in
      elim (notify_peer_cases b conn c) [
        | inl (stop, (err, e, z)) ↦ rw stop (inr ([], err, ap (λ q. q ∷ []) e, tt, z, omega arith))
        | inr (on, kept) ↦ rw on (
            kept_serving (length peers) r (notify_peers b peers (report r (record c { dev = d }))).0
              kept later)
      ]
