-- ===== src/Proxy/Relay/Delivery.antt =====
-- What the loops of 3/src/handler.c that write to a socket send.
use mathlib.Core.List.{append_assoc, append-nil}
use os_5_sem.Base.{
  ℕ, zero, suc, ◌+◌, ◌-◌, ◌<◌, ◌≡◌, refl, sym, ◌∙◌, ap, true, false, List, [], ◌∷◌, ◌++◌, arith,
  ◌==◌, take, drop, length, length-append, Bool-cases, inl, inr,
}
use Prim.Native.Nat.{min}
use os_5_sem.Proxy.Relay.{Sent, send_all, relay, joined}

take-append-drop : (n : ℕ) (s : List ℕ) → take n s ++ drop n s ≡ s
take-append-drop zero s = refl
take-append-drop (suc n) [] = refl
take-append-drop (suc n) (c ∷ s) = ap (λ r. c ∷ r) (take-append-drop n s)

length-drop : (n : ℕ) (s : List ℕ) → length (drop n s) ≡ length s - n
length-drop zero s = omega arith
length-drop (suc n) [] = omega arith
length-drop (suc n) (c ∷ s) = omega (arith, length-drop n s)

-- What was sent is a prefix of the text; all of it exactly if the loop says so.
pub record Prefix (left : List ℕ) (s : Sent) : Type 0 where
  pub unsent : List ℕ
  pub split : left ≡ s.bytes ++ unsent
  pub complete : s.all ≡ true → unsent ≡ []
  pub failed : s.all ≡ false → 0 < length unsent

not_zero : (n : ℕ) → (suc n == 0) ≡ false
not_zero n = ground arith

positive : (n : ℕ) → (n == 0) ≡ false → 0 < n
positive n h = ground arith

min_not_zero : (a n : ℕ) → 0 < a → (min a (suc n) == 0) ≡ false
min_not_zero a n h = ground arith

pub send_all-Prefix :
    (write : ℕ → ℕ) (fuel next : ℕ) (left : List ℕ)
    → length left < fuel
    → Prefix left (send_all write fuel next left)
unfolding send_all
send_all-Prefix write zero next left enough = absurd (omega arith)
send_all-Prefix write (suc k) next [] enough = record {
  unsent = [];
  split = refl;
  complete = λ h. refl;
  failed = λ h. cc;
}
send_all-Prefix write (suc k) next (c ∷ s) enough =
    let l = c ∷ s in
    let n = min (write next) (length l) in
    let some_left : (length l == 0) ≡ false = not_zero (length s) in
    elim (Bool-cases (n == 0)) [
      | inl stops ↦ rw some_left (
          rw stops
            (record { unsent = l; split = refl; complete = λ h. cc; failed = λ h. omega arith }))
      | inr goes ↦
          let ih =
            send_all-Prefix write k (next + 1) (drop n l)
              (omega (arith, length-drop n l, positive n goes)) in
          rw some_left (
            rw goes (record {
              unsent = ih.unsent;
              split =
                  sym (take-append-drop n l)
                  ∙ ap (λ r. take n l ++ r) ih.split
                  ∙ sym (
                      append_assoc (take n l) (send_all write k (next + 1) (drop n l)).bytes
                        ih.unsent);
              complete = ih.complete;
              failed = ih.failed;
            }))
    ]

-- Where every write sends something, all is sent.
pub send_all_total :
    (write : ℕ → ℕ) (fuel next : ℕ) (left : List ℕ)
    → ((i : ℕ) → 0 < write i)
    → length left < fuel
    → (send_all write fuel next left).all ≡ true
unfolding send_all
send_all_total write zero next left goes enough = absurd (omega arith)
send_all_total write (suc k) next [] goes enough = refl
send_all_total write (suc k) next (c ∷ s) goes enough =
    let l = c ∷ s in
    let n = min (write next) (length l) in
    let some_left : (length l == 0) ≡ false = not_zero (length s) in
    let some_sent : (n == 0) ≡ false = min_not_zero (write next) (length s) (goes next) in
    rw some_left (
      rw some_sent (
        send_all_total write k (next + 1) (drop n l) goes
          (omega (arith, length-drop n l, positive n some_sent))))

-- The relay ends. What it wrote is a prefix of the chunks that it read, in order; it is all of them
-- exactly if no write failed, and it is all of them where every write sends at least one byte,
-- however few.
pub relay-Prefix :
    (write : ℕ → ℕ) (next : ℕ) (chunks : List (List ℕ))
    → Prefix (joined chunks) (relay write next chunks)
      × (((i : ℕ) → 0 < write i) → (relay write next chunks).all ≡ true)
unfolding relay
relay-Prefix write next [] =
    (record { unsent = []; split = refl; complete = λ h. refl; failed = λ h. cc }, λ goes. refl)
relay-Prefix write next (chunk ∷ chunks) =
    let fuel = length chunk + 1 in
    let first = send_all-Prefix write fuel next chunk (omega arith) in
    let one = send_all write fuel next chunk in
    let ih = relay-Prefix write one.next chunks in
    let rest = relay write one.next chunks in
    elim (Bool-cases one.all) [
      | inl done ↦
          let e : chunk ≡ one.bytes =
            first.split ∙ ap (λ r. one.bytes ++ r) (first.complete done) ∙ append-nil one.bytes in
          (
            rw done (record {
              unsent = ih.0.unsent;
              split =
                  (λ i. e i ++ ih.0.split i) ∙ sym (append_assoc one.bytes rest.bytes ih.0.unsent);
              complete = ih.0.complete;
              failed = ih.0.failed;
            }),
            rw done ih.1,
          )
      | inr cut ↦ (
        rw cut (record {
          unsent = first.unsent ++ joined chunks;
          split =
              ap (λ r. r ++ joined chunks) first.split
              ∙ append_assoc one.bytes first.unsent (joined chunks);
          complete = λ h. cc;
          failed = λ h. omega (arith, first.failed cut, length-append first.unsent (joined chunks));
        }),
        λ goes. absurd (ground (arith, cut, send_all_total write fuel next chunk goes)),
      )
    ]
