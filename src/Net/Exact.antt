-- ===== src/Net/Exact.antt =====
-- The loops of `recv_exact` and `send_all` end, and move exactly the bytes that they are asked for.
use m_extender.Prelude.{
  ℕ, zero, suc, ◌+◌, ◌-◌, ◌≤◌, ◌<◌, ◌≡◌, refl, sym, ap, ◌∙◌, List, [], ◌∷◌, ◌++◌, length, take,
  drop, ◌==◌, arith, append_assoc, append-nil, length-append, Bool-cases, inl, inr,
  take-append-drop, length-drop, take-append, drop-append, take-add, take-length,
}
use m_extender.Prelude.Int.{pos}
use m_extender.Net.{
  Sockets, Outcome, done, failed, out_of_fuel, recv_loop, recv_exact, send_loop, send_all,
}

module _ (net : Sockets) where
  open net use {S, recv, send, pending, wire}

  -- What a loop that asks for `need` bytes may come back with.
  abbrev pub Received : List ℕ → ℕ → S → S × Outcome (List ℕ) → Type 0
  Received got need s (s', done all) =
      (length all ≡ length got + need) × (all ++ pending s' ≡ got ++ pending s)
  Received got need s (s', failed) = Unit {0}
  Received got need s (s', out_of_fuel) = ⊥

  Received-step :
      (got bytes : List ℕ) (need : ℕ) (s s' : S) (r : S × Outcome (List ℕ))
      → bytes ++ pending s' ≡ pending s
      → length bytes ≤ need
      → Received (got ++ bytes) (need - length bytes) s' r
      → Received got need s r
  Received-step got bytes need s s' (t, done all) e b h = (
    omega (arith, h.0, length-append got bytes),
    h.1 ∙ append_assoc got bytes (pending s') ∙ ap (λ l. got ++ l) e,
  )
  Received-step got bytes need s s' (t, failed) e b h = tt
  Received-step got bytes need s s' (t, out_of_fuel) e b h = h

  recv_loop_lem :
      (fuel need : ℕ) (got : List ℕ) (s : S)
      → need ≤ fuel
      → Received got need s (recv_loop net fuel need got s)
  unfolding recv_loop
  recv_loop_lem fuel zero got s h = (omega arith, refl)
  recv_loop_lem zero (suc need) got s h = absurd (omega arith)
  recv_loop_lem (suc fuel) (suc need) got s h =
      let bytes = (recv s (suc need)).1 in
      let s' = (recv s (suc need)).0 in
      elim (Bool-cases (length bytes == 0)) [
        | inl none_came ↦ rw none_came tt
        | inr some_came ↦ rw some_came (
            Received-step got bytes (suc need) s s' _ (net.recv_in_order s (suc need))
              (net.recv_at_most s (suc need))
              (recv_loop_lem fuel (suc need - length bytes) (got ++ bytes) s' (ground arith)))
      ]

  -- recv_exact of n bytes ends, by failing or with n bytes that are the next of the stream.
  pub recv_exact_lem : (n : ℕ) (s : S) → Received [] n s (recv_exact net s (pos n))
  unfolding recv_exact
  recv_exact_lem n s = recv_loop_lem n n [] s (omega arith)

  -- While the peer is there, a blocking recv comes back with data as long as there is some.
  abbrev pub IsOpen : Type 0
  IsOpen = (s : S) (n : ℕ) → 0 < n → 0 < length (pending s) → 0 < length (recv s n).1

  abbrev pub Arrives : S × Outcome (List ℕ) → List ℕ → List ℕ → Type 0
  Arrives (s', done all) bytes rest = (all ≡ bytes) × (pending s' ≡ rest)
  Arrives (s', failed) bytes rest = ⊥
  Arrives (s', out_of_fuel) bytes rest = ⊥

  abbrev Finishes : S × Outcome (List ℕ) → Type 0
  Finishes (s', done all) = Unit {0}
  Finishes (s', failed) = ⊥
  Finishes (s', out_of_fuel) = Unit {0}

  recv_loop-Finishes :
      (fuel need : ℕ) (got : List ℕ) (s : S)
      → IsOpen
      → need ≤ length (pending s)
      → Finishes (recv_loop net fuel need got s)
  unfolding recv_loop
  recv_loop-Finishes fuel zero got s o h = tt
  recv_loop-Finishes zero (suc need) got s o h = tt
  recv_loop-Finishes (suc fuel) (suc need) got s o h =
      let bytes = (recv s (suc need)).1 in
      let s' = (recv s (suc need)).0 in
      let e = net.recv_in_order s (suc need) in
      let more = o s (suc need) (omega arith) (omega arith) in
      elim (Bool-cases (length bytes == 0)) [
        | inl none_came ↦ absurd (ground (arith, more))
        | inr some_came ↦ rw some_came (
            recv_loop-Finishes fuel (suc need - length bytes) (got ++ bytes) s' o
              (omega (arith, ap length e, length-append bytes (pending s'))))
      ]

  Arrives-from :
      (r : S × Outcome (List ℕ)) (s : S) (bytes rest : List ℕ)
      → pending s ≡ bytes ++ rest
      → Received [] (length bytes) s r
      → Finishes r
      → Arrives r bytes rest
  Arrives-from (s', done all) s bytes rest e h f =
      let l : length all ≡ length bytes = omega (arith, h.0) in
      let m = h.1 ∙ e in
      (
        sym (take-append all (pending s'))
            ∙ ap (λ k. take k (all ++ pending s')) l
            ∙ ap (take (length bytes)) m
            ∙ take-append bytes rest,
        sym (drop-append all (pending s'))
            ∙ ap (λ k. drop k (all ++ pending s')) l
            ∙ ap (drop (length bytes)) m
            ∙ drop-append bytes rest,
      )
  Arrives-from (s', failed) s bytes rest e h f = f
  Arrives-from (s', out_of_fuel) s bytes rest e h f = h

  -- From an open connection recv_exact takes exactly the bytes at the front of the stream.
  pub recv_exact-Arrives :
      (s : S) (bytes rest : List ℕ)
      → IsOpen
      → pending s ≡ bytes ++ rest
      → Arrives (recv_exact net s (pos (length bytes))) bytes rest
  unfolding recv_exact
  recv_exact-Arrives s bytes rest o e =
      Arrives-from _ s bytes rest e (recv_exact_lem (length bytes) s) (
        recv_loop-Finishes (length bytes) (length bytes) [] s o
          (omega (arith, ap length e, length-append bytes rest)))

  -- What became of the bytes given to a send loop: all went out in order, or the first `r` did.
  abbrev pub Sent : List ℕ → S → S × Outcome (Unit {0}) → Type 0
  Sent bytes s (s', done _) = wire s' ≡ wire s ++ bytes
  Sent bytes s (s', failed) = (r : ℕ) × (wire s' ≡ wire s ++ take r bytes)
  Sent bytes s (s', out_of_fuel) = ⊥

  Sent-step :
      (bytes : List ℕ) (k : ℕ) (s s' : S) (r : S × Outcome (Unit {0}))
      → wire s' ≡ wire s ++ take k bytes
      → Sent (drop k bytes) s' r
      → Sent bytes s r
  Sent-step bytes k s s' (t, done _) e h =
      h
      ∙ ap (λ l. l ++ drop k bytes) e
      ∙ append_assoc (wire s) (take k bytes) (drop k bytes)
      ∙ ap (λ l. wire s ++ l) (take-append-drop k bytes)
  Sent-step bytes k s s' (t, failed) e (r, h) = (
    k + r,
    h
        ∙ ap (λ l. l ++ take r (drop k bytes)) e
        ∙ append_assoc (wire s) (take k bytes) (take r (drop k bytes))
        ∙ ap (λ l. wire s ++ l) (sym (take-add k r bytes)),
  )
  Sent-step bytes k s s' (t, out_of_fuel) e h = h

  send_loop_lem :
      (fuel : ℕ) (bytes : List ℕ) (s : S)
      → length bytes ≤ fuel
      → Sent bytes s (send_loop net fuel bytes s)
  unfolding send_loop
  send_loop_lem fuel [] s h = sym (append-nil (wire s))
  send_loop_lem zero (b ∷ bytes) s h = absurd (omega arith)
  send_loop_lem (suc fuel) (b ∷ bytes) s h =
      let all = b ∷ bytes in
      let k = (send s all).1 in
      let s' = (send s all).0 in
      let e = net.send_in_order s all in
      elim (Bool-cases (k == 0)) [
        | inl nothing ↦ rw nothing (k, e)
        | inr something ↦ rw something (
            Sent-step all k s s' _ e
              (send_loop_lem fuel (drop k all) s' (ground (arith, length-drop k all))))
      ]

  -- send_all of a whole buffer ends, with every byte sent in order or with a failure after some.
  pub send_all_lem :
      (bytes : List ℕ) (s : S) → Sent bytes s (send_all net s bytes (pos (length bytes)))
  unfolding send_all
  send_all_lem bytes s = rw (take-length bytes) (send_loop_lem (length bytes) bytes s (omega arith))
