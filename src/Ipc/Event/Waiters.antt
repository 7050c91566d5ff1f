-- ===== src/Ipc/Event/Waiters.antt =====
-- No thread that waits for an event is forgotten, and none waits for a defunct one.
use aexkernel.Base.{
  ℕ, ◌≡◌, ◌≢◌, refl, sym, ap, ◌∙◌, Bool, true, false, inl, inr, Option, none, some, List, [], ◌∷◌,
  ◌++◌, ◌==◌, ==_refl, ==_ne, Bool-cases, if◌then◌else◌, length,
}
use mathlib.Core.Path.{subst}
use native.Mathlib.Decide.{ℕ_discrete}
use aexkernel.Ipc.Event.{
  Status, fresh, runnable, sleeping, blocked, dead, is_dead, Threads, Event, no_event, set_status,
  is_among, put_to_sleep, wait, wake_all, raise, defunct,
}

abbrev waits : Status → Bool
waits fresh = false
waits runnable = false
waits sleeping = true
waits blocked = true
waits dead = false

-- Threads that use one event: each waits or raises it, a sleeper's time is over, or a thread that does
-- not wait gets another status that is none of waiting.
pub data Step : Event → Threads → Event → Threads → Type 0 where
  waits_for :
      (e : Event) (ts : Threads) (t timeout now : ℕ)
      → Step e ts (wait e ts t timeout now).0 (wait e ts t timeout now).1
  raised :
      (e : Event) (ts : Threads) (n : ℕ) (e' : Event) (ts' : Threads)
      → raise e ts ≡ some (n, e', ts')
      → Step e ts e' ts'
  ended :
      (e : Event) (ts : Threads) (n : ℕ) (e' : Event) (ts' : Threads)
      → defunct e ts ≡ some (n, e', ts')
      → Step e ts e' ts'
  goes_on :
      (e : Event) (ts : Threads) (t : ℕ) (s : Status)
      → waits s ≡ false
      → Step e ts e (set_status ts t s)

pub data Reachable : Event → Threads → Type 0 where
  start : (ts : Threads) → ((t : ℕ) → waits (ts.status t) ≡ false) → Reachable no_event ts
  then_step :
      (e : Event) (ts : Threads) (e' : Event) (ts' : Threads)
      → Reachable e ts
      → Step e ts e' ts'
      → Reachable e' ts'

-- Each thread that waits is among the waiters, and a defunct event has none.
pub record Remembers (e : Event) (ts : Threads) : Type 0 where
  pub known : (t : ℕ) → waits (ts.status t) ≡ true → is_among t e.waiters ≡ true
  pub none_left : e.is_defunct ≡ true → e.waiters ≡ []

is_among-append :
    (t : ℕ) (us : List ℕ) (u : ℕ) → is_among t us ≡ true → is_among t (us ++ u ∷ []) ≡ true
is_among-append t [] u h = absurd (clash h)
  where
    clash : false ≡ true → ⊥
    clash q = cc
is_among-append t (v ∷ vs) u h = elim (Bool-cases (t == v)) [
  | inl e ↦ rw e refl
  | inr e ↦ rw e (is_among-append t vs u (sym (at_rest e) ∙ h))
]
  where
    at_rest : (t == v) ≡ false → is_among t (v ∷ vs) ≡ is_among t vs
    at_rest e = rw e refl

is_among-last : (t : ℕ) (us : List ℕ) → is_among t (us ++ t ∷ []) ≡ true
is_among-last t [] = rw (==_refl t) refl
is_among-last t (v ∷ vs) = elim (Bool-cases (t == v)) [
  | inl e ↦ rw e refl
  | inr e ↦ rw e (is_among-last t vs)
]

-- What the loop wakes is what was waiting, each thread once or more; the others stay.
pub wake_all-status :
    (us : List ℕ) (ts ts' : Threads)
    → wake_all us ts ≡ some ts'
    → (t : ℕ) → ts'.status t ≡ (if is_among t us then runnable else ts.status t)
unfolding wake_all
wake_all-status [] ts ts' h t = sym (ap (λ x. x.status t) (same h))
  where
    same : ◌≡◌ {A = Option Threads} (some ts) (some ts') → ts ≡ ts'
    same q = cc
wake_all-status (u ∷ us) ts ts' h t = elim (Bool-cases (is_dead (ts.status u))) [
  | inl d ↦ absurd (clash (sym (dies d) ∙ h))
  | inr d ↦
      wake_all-status us (set_status ts u runnable) ts' (sym (lives d) ∙ h) t
      ∙ choose (t == u) (is_among t us)
]
  where
    dies : is_dead (ts.status u) ≡ true → wake_all (u ∷ us) ts ≡ none
    dies d = rw d refl

    lives :
        is_dead (ts.status u) ≡ false
        → wake_all (u ∷ us) ts ≡ wake_all us (set_status ts u runnable)
    lives d = rw d refl

    clash : ◌≡◌ {A = Option Threads} none (some ts') → ⊥
    clash q = cc

    choose :
        (x y : Bool)
        → (if y then runnable else if x then runnable else ts.status t)
          ≡ (if if x then true else y then runnable else ts.status t)
    choose true true = refl
    choose true false = refl
    choose false true = refl
    choose false false = refl

-- The waiters are woken, and forgotten.
woken_none :
    (us : List ℕ) (ts ts' : Threads)
    → ((t : ℕ) → waits (ts.status t) ≡ true → is_among t us ≡ true)
    → wake_all us ts ≡ some ts'
    → (t : ℕ) → waits (ts'.status t) ≡ false
woken_none us ts ts' known h t =
    ap waits (wake_all-status us ts ts' h t) ∙ elim (Bool-cases (is_among t us)) [
      | inl y ↦ rw y refl
      | inr n ↦ rw n (elim (Bool-cases (waits (ts.status t))) [
        | inl w ↦ absurd (clash (sym n ∙ known t w))
        | inr w ↦ w
      ])
    ]
  where
    clash : false ≡ true → ⊥
    clash q = cc

forgets :
    (ts : Threads) (d : Bool)
    → ((t : ℕ) → waits (ts.status t) ≡ false)
    → Remembers (record { waiters = []; is_defunct = d }) ts
forgets ts d none_waits = record {
  known = λ t w. absurd (clash (sym (none_waits t) ∙ w));
  none_left = λ _. refl;
}
  where
    clash : false ≡ true → ⊥
    clash q = cc

Remembers-wait :
    (e : Event) (ts : Threads) (c timeout now : ℕ)
    → Remembers e ts
    → Remembers (wait e ts c timeout now).0 (wait e ts c timeout now).1
unfolding wait put_to_sleep
Remembers-wait e ts c timeout now r = elim (Bool-cases e.is_defunct) [
  | inl d ↦
      subst (λ (x : Event × Threads). Remembers x.0 x.1)
        (sym (ap (λ b. if b then (e, ts) else (waiting, put_to_sleep ts c timeout now)) d)) r
  | inr d ↦
      subst (λ (x : Event × Threads). Remembers x.0 x.1)
        (sym (ap (λ b. if b then (e, ts) else (waiting, put_to_sleep ts c timeout now)) d))
        (record {
          known = λ t w. elim (ℕ_discrete t c) [
            | yes a ↦ rw a (there (is_among c e.waiters) refl)
            | no a ↦ elim (Bool-cases (is_among c e.waiters)) [
              | inl y ↦ rw y (r.known t (old t a w))
              | inr n ↦ rw n (is_among-append t e.waiters c (r.known t (old t a w)))
            ]
          ];
          none_left = λ x. absurd (clash (sym d ∙ x));
        })
]
  where
    waiting : Event
    waiting = record e { waiters = if is_among c e.waiters then e.waiters else e.waiters ++ c ∷ [] }

    clash : false ≡ true → ⊥
    clash q = cc

    there :
        (b : Bool)
        → is_among c e.waiters ≡ b
        → is_among c (if b then e.waiters else e.waiters ++ c ∷ []) ≡ true
    there true q = q
    there false q = is_among-last c e.waiters

    old :
        (t : ℕ)
        → t ≢ c
        → waits ((put_to_sleep ts c timeout now).status t) ≡ true
        → waits (ts.status t) ≡ true
    old t a w = sym (ap waits (same (timeout == 0))) ∙ w
      where
        same : (b : Bool) → (put_to_sleep ts c timeout now).status t ≡ ts.status t
        same b = elim (Bool-cases (timeout == 0)) [
          | inl z ↦ rw (z, ==_ne t c a) refl
          | inr z ↦ rw (z, ==_ne t c a) refl
        ]

woken :
    (o : Option Threads) (e' : Event) (ts' : Threads) (total n : ℕ) (d : Bool)
    → ((x : Threads) → o ≡ some x → (t : ℕ) → waits (x.status t) ≡ false)
    → ◌≡◌ {A = Option (ℕ × Event × Threads)}
        (elim o [ none ↦ none | some x ↦ some (total, record { waiters = []; is_defunct = d }, x) ])
        (some (n, e', ts'))
    → Remembers e' ts'
woken none e' ts' total n d w h = absurd (clash h)
  where
    clash : ◌≡◌ {A = Option (ℕ × Event × Threads)} none (some (n, e', ts')) → ⊥
    clash q = cc
woken (some x) e' ts' total n d w h =
    subst (λ (y : Event × Threads). Remembers y.0 y.1) (given h) (forgets x d (w x refl))
  where
    parts : Option (ℕ × Event × Threads) → Event × Threads
    parts none = (e', ts')
    parts (some (_, a, b)) = (a, b)

    given :
        ◌≡◌ {A = Option (ℕ × Event × Threads)}
          (some (total, record { waiters = []; is_defunct = d }, x))
          (some (n, e', ts'))
        → ◌≡◌ {A = Event × Threads} (record { waiters = []; is_defunct = d }, x) (e', ts')
    given q = ap parts q

Remembers-Step :
    (e : Event) (ts : Threads) (e' : Event) (ts' : Threads)
    → Remembers e ts
    → Step e ts e' ts'
    → Remembers e' ts'
unfolding raise defunct
Remembers-Step e ts _ _ r (waits_for _ _ t timeout now) = Remembers-wait e ts t timeout now r
Remembers-Step e ts e' ts' r (ended _ _ n _ _ h) =
    woken (wake_all e.waiters ts) e' ts' (length e.waiters) n true
      (λ x q. woken_none e.waiters ts x r.known q) h
Remembers-Step e ts e' ts' r (raised _ _ n _ _ h) =
    woken (wake_all e.waiters ts) e' ts' (length e.waiters) n e.is_defunct
      (λ x q. woken_none e.waiters ts x r.known q) h
Remembers-Step e ts _ _ r (goes_on _ _ t s h) = record {
  known = λ u w. elim (ℕ_discrete u t) [
    | yes a ↦ absurd (clash (sym h ∙ sym (ap waits (written u a)) ∙ w))
    | no a ↦ r.known u (sym (ap waits (other u a)) ∙ w)
  ];
  none_left = r.none_left;
}
  where
    clash : false ≡ true → ⊥
    clash q = cc

    written : (u : ℕ) → u ≡ t → (set_status ts t s).status u ≡ s
    written u a = rw (a, ==_refl t) refl

    other : (u : ℕ) → u ≢ t → (set_status ts t s).status u ≡ ts.status u
    other u a = rw (==_ne u t a) refl

-- However threads wait for an event, raise it and end it, where a thread gets a waiting status from
-- `wait` alone: each thread that is blocked or asleep is among the waiters, and an event that is
-- defunct has no waiters.
pub Reachable-Remembers : (e : Event) (ts : Threads) → Reachable e ts → Remembers e ts
Reachable-Remembers _ _ (start ts h) = forgets ts false h
Reachable-Remembers _ _ (then_step e ts e' ts' r s) =
    Remembers-Step e ts e' ts' (Reachable-Remembers e ts r) s
