-- ===== src/Ipc/Waiters.antt =====
-- The queues of blocked threads: what their links say, and what joining and leaving does to them.
use reaper_operating_system.Base.{
  ℕ, ◌≡◌, refl, sym, ap, ◌∙◌, ◌≢◌, true, false, List, [], ◌∷◌, ◌++◌, ◌==◌, if◌then◌else◌, ne→==,
  ==_refl, ==→eq, Bool-cases, inl, inr, Apart, Distinct,
}
use mathlib.Core.Path.{subst}
use reaper_operating_system.Ipc.{Thread, Message, put, push_waiter}

-- From `head` the links lead through these threads, in order, to `tail`.
abbrev pub Queue : (ℕ → Thread) → (head tail : ℕ) → List ℕ → Type 0
Queue th head tail [] = head ≡ 0
Queue th head tail (x ∷ []) = (head ≡ x) × (x ≢ 0) × ((th x).wait_next ≡ 0) × (tail ≡ x)
Queue th head tail (x ∷ y ∷ xs) = (head ≡ x) × (x ≢ 0) × Queue th (th x).wait_next tail (y ∷ xs)

-- the two stores link the threads in the same way
abbrev pub SameLinks : (th th' : ℕ → Thread) → List ℕ → Type 0
SameLinks th th' [] = Unit {0}
SameLinks th th' (x ∷ xs) = ((th' x).wait_next ≡ (th x).wait_next) × SameLinks th th' xs

pub Queue-SameLinks :
    (th th' : ℕ → Thread) (head tail : ℕ) (xs : List ℕ)
    → SameLinks th th' xs
    → Queue th head tail xs
    → Queue th' head tail xs
Queue-SameLinks th th' head tail [] same q = q
Queue-SameLinks th th' head tail (x ∷ []) same q = (q.0, q.1, same.0 ∙ q.2, q.3)
Queue-SameLinks th th' head tail (x ∷ y ∷ xs) same q =
    (q.0, q.1, rw (same.0) (Queue-SameLinks th th' (th x).wait_next tail (y ∷ xs) same.1 q.2))

pub put_ne : (th : ℕ → Thread) (c x : ℕ) (v : Thread) → c ≢ x → put th c v x ≡ th x
put_ne th c x v ne = let test = ne→== c x ne in rw test refl

pub put-same : (th : ℕ → Thread) (c : ℕ) (v : Thread) → put th c v c ≡ v
put-same th c v = let test = ==_refl c in rw test refl

pub SameLinks-put :
    (th : ℕ → Thread) (c : ℕ) (v : Thread) (xs : List ℕ) → Apart c xs → SameLinks th (put th c v) xs
SameLinks-put th c v [] apart = tt
SameLinks-put th c v (x ∷ xs) apart =
    (ap (λ t. t.wait_next) (put_ne th c x v apart.0), SameLinks-put th c v xs apart.1)

-- a write to a thread that keeps its link
pub SameLinks-keep :
    (th : ℕ → Thread) (c : ℕ) (m : Message) (xs : List ℕ)
    → SameLinks th (put th c (record (th c) { ipc_payload = m })) xs
SameLinks-keep th c m [] = tt
SameLinks-keep th c m (x ∷ xs) = (
  elim (Bool-cases (c == x)) [
    | inl e ↦ rw e (ap (λ t. (th t).wait_next) (==→eq c x e))
    | inr e ↦ rw e refl
  ],
  SameLinks-keep th c m xs,
)

-- the messages that blocked threads carry
abbrev pub payloads : (ℕ → Thread) → List ℕ → List Message
payloads th [] = []
payloads th (x ∷ xs) = (th x).ipc_payload ∷ payloads th xs

pub payloads-put :
    (th : ℕ → Thread) (c : ℕ) (v : Thread) (xs : List ℕ)
    → Apart c xs
    → payloads (put th c v) xs ≡ payloads th xs
payloads-put th c v [] apart = refl
payloads-put th c v (x ∷ xs) apart =
    rw (put_ne th c x v apart.0, payloads-put th c v xs apart.1) refl

pub Queue-head :
    (th : ℕ → Thread) (head tail x : ℕ) (xs : List ℕ)
    → Queue th head tail (x ∷ xs)
    → (head ≡ x) × (x ≢ 0)
Queue-head th head tail x [] q = (q.0, q.1)
Queue-head th head tail x (y ∷ xs) q = (q.0, q.1)

-- The first thread leaves.
pub Queue-rest :
    (th : ℕ → Thread) (head tail x : ℕ) (xs : List ℕ)
    → Queue th head tail (x ∷ xs)
    → Queue th (th x).wait_next (if (th x).wait_next == 0 then 0 else tail) xs
Queue-rest th head tail x [] q = q.2
Queue-rest th head tail x (y ∷ xs) q =
    let first = Queue-head th (th x).wait_next tail y xs q.2 in
    let test : ((th x).wait_next == 0) ≡ false =
      ne→== (th x).wait_next 0 (λ e. first.1 (sym first.0 ∙ e)) in
    rw test (q.2)

tail-Apart :
    (th : ℕ → Thread) (head tail x y : ℕ) (xs : List ℕ)
    → Queue th head tail (y ∷ xs)
    → Apart x (y ∷ xs)
    → tail ≢ x
tail-Apart th head tail x y [] q apart e = apart.0 (sym e ∙ q.3)
tail-Apart th head tail x y (z ∷ xs) q apart e =
    tail-Apart th (th y).wait_next tail x z xs q.2 apart.1 e

-- A thread that is in no queue joins the end of one
pub Queue-join :
    (th : ℕ → Thread) (head tail x c : ℕ) (xs : List ℕ)
    → c ≢ 0
    → (th c).wait_next ≡ 0
    → Apart c (x ∷ xs)
    → Distinct (x ∷ xs)
    → Queue th head tail (x ∷ xs)
    → Queue (put th tail (record (th tail) { wait_next = c })) head c ((x ∷ xs) ++ (c ∷ []))
Queue-join th head tail x c [] nonzero last apart distinct q =
    let v : Thread = record (th tail) { wait_next = c } in
    let at : put th tail v x ≡ v = ap (put th tail v) (sym q.3) ∙ put-same th tail v in
    let away = put_ne th tail c v (λ e. apart.0 (sym e ∙ q.3)) in
    (q.0, q.1, (ap (λ t. t.wait_next) at, nonzero, ap (λ t. t.wait_next) away ∙ last, refl))
Queue-join th head tail x c (y ∷ xs) nonzero last apart distinct q =
    let v : Thread = record (th tail) { wait_next = c } in
    let away = tail-Apart th (th x).wait_next tail x y xs q.2 distinct.0 in
    let link = ap (λ t. t.wait_next) (put_ne th tail x v away) in
    (
      q.0,
      q.1,
      rw link (Queue-join th (th x).wait_next tail y c xs nonzero last apart.1 distinct.1 q.2),
    )

-- The first thread leaves, as the code reads it off the head.
pub Queue-leave :
    (th : ℕ → Thread) (head tail x : ℕ) (xs : List ℕ)
    → Queue th head tail (x ∷ xs)
    → Queue th (th head).wait_next (if (th head).wait_next == 0 then 0 else tail) xs
Queue-leave th head tail x xs q =
    let first = (Queue-head th head tail x xs q).0 in rw first (Queue-rest th head tail x xs q)

payloads-relink :
    (th : ℕ → Thread) (t c : ℕ) (xs : List ℕ)
    → payloads (put th t (record (th t) { wait_next = c })) xs ≡ payloads th xs
payloads-relink th t c [] = refl
payloads-relink th t c (x ∷ xs) =
    let rest = payloads-relink th t c xs in
    elim (Bool-cases (t == x)) [
      | inl e ↦
          let same : t ≡ x = ==→eq t x e in
          rw (e, rest) (ap (λ u. (th u).ipc_payload ∷ payloads th xs) same)
      | inr e ↦ rw (e, rest) refl
    ]

pub payloads-append :
    (th : ℕ → Thread) (c : ℕ) (xs : List ℕ)
    → payloads th (xs ++ (c ∷ [])) ≡ payloads th xs ++ ((th c).ipc_payload ∷ [])
payloads-append th c [] = refl
payloads-append th c (x ∷ xs) = ap (λ ms. (th x).ipc_payload ∷ ms) (payloads-append th c xs)

Apart-append : (x c : ℕ) (xs : List ℕ) → Apart x xs → c ≢ x → Apart x (xs ++ (c ∷ []))
Apart-append x c [] apart ne = (λ e. ne (sym e), tt)
Apart-append x c (y ∷ xs) apart ne = (apart.0, Apart-append x c xs apart.1 ne)

pub Distinct-append : (c : ℕ) (xs : List ℕ) → Apart c xs → Distinct xs → Distinct (xs ++ (c ∷ []))
Distinct-append c [] apart distinct = (tt, tt)
Distinct-append c (x ∷ xs) apart distinct =
    (Apart-append x c xs distinct.0 apart.0, Distinct-append c xs apart.1 distinct.1)

push_empty :
    (th : ℕ → Thread) (c head tail : ℕ) → head ≡ 0 → push_waiter c head tail th ≡ (c, c, th)
unfolding push_waiter
push_empty th c head tail e = let test : (head == 0) ≡ true = ap (λ n. n == 0) e in rw test refl

push_behind :
    (th : ℕ → Thread) (c head tail : ℕ)
    → head ≢ 0
    → push_waiter c head tail th ≡ (head, c, put th tail (record (th tail) { wait_next = c }))
unfolding push_waiter
push_behind th c head tail ne = let test = ne→== head 0 ne in rw test refl

-- a queue after the caller joined, with every message as it was
abbrev pub Joined : (ℕ → Thread) → ℕ → List ℕ → ℕ × ℕ × (ℕ → Thread) → Type 0
Joined th c xs q =
    Queue q.2 q.0 q.1 (xs ++ (c ∷ [])) × ((ys : List ℕ) → payloads q.2 ys ≡ payloads th ys)

-- `push_waiter` puts the caller at the end of the queue, and changes no message.
pub push_waiter-Joined :
    (th : ℕ → Thread) (c head tail : ℕ) (xs : List ℕ)
    → c ≢ 0
    → (th c).wait_next ≡ 0
    → Apart c xs
    → Distinct xs
    → Queue th head tail xs
    → Joined th c xs (push_waiter c head tail th)
push_waiter-Joined th c head tail [] nonzero last apart distinct q =
    subst (λ p. Joined th c [] p) (sym (push_empty th c head tail q))
      ((refl, nonzero, last, refl), λ ys. refl)
push_waiter-Joined th c head tail (x ∷ xs) nonzero last apart distinct q =
    let first = Queue-head th head tail x xs q in
    subst (λ p. Joined th c (x ∷ xs) p)
      (sym (push_behind th c head tail (λ e. first.1 (sym first.0 ∙ e))))
      ((
        Queue-join th head tail x c xs nonzero last apart distinct q,
        λ ys. payloads-relink th tail c ys,
      ))
