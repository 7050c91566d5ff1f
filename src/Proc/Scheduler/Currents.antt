-- ===== src/Proc/Scheduler/Currents.antt =====
-- The current and the idle threads of the processors, and what one processor's switch leaves of them.
use aexkernel.Base.{
  ℕ, zero, ◌≡◌, ◌≢◌, sym, ap, ◌∙◌, true, Option, none, some, ==_ne, ==_refl, if◌then◌else◌,
}
use native.Mathlib.Decide.{ℕ_discrete}
use aexkernel.Proc.Scheduler.{Thread, Cpu, Machine, with_thread, with_cpu}

-- Each processor's current thread is locked and its own, and no idle thread is in the ring.
pub record IsExclusive (m : Machine) : Type 0 where
  pub held : (c : ℕ) → (m.threads (m.cpus c).current).locked ≡ true
  pub alone : (c d : ℕ) → c ≢ d → (m.cpus c).current ≢ (m.cpus d).current
  pub own : (c d : ℕ) → c ≢ d → (m.cpus c).current ≢ (m.cpus d).idle
  pub idles : (c d : ℕ) → c ≢ d → (m.cpus c).idle ≢ (m.cpus d).idle
  pub hidden : (t c : ℕ) → (m.threads t).next ≢ some ((m.cpus c).idle)
  pub outside : (c : ℕ) → m.list_head ≢ (m.cpus c).idle

abbrev pub AreExclusive : Option Machine → Type 0
AreExclusive none = zero ≡ zero
AreExclusive (some m) = IsExclusive m

-- Processor `c` has thread `u` now, and all else about who runs is as it was.
pub record Switched (m m' : Machine) (c u : ℕ) : Type 0 where
  pub idle : (d : ℕ) → (m'.cpus d).idle ≡ (m.cpus d).idle
  pub its : (m'.cpus c).current ≡ u
  pub others : (d : ℕ) → d ≢ c → (m'.cpus d).current ≡ (m.cpus d).current
  pub not_theirs : (d : ℕ) → d ≢ c → u ≢ (m.cpus d).current
  pub not_idle : (d : ℕ) → d ≢ c → u ≢ (m.cpus d).idle
  pub locked : (m'.threads u).locked ≡ true
  pub still_locked : (d : ℕ) → d ≢ c → (m'.threads (m.cpus d).current).locked ≡ true
  pub still_hidden : (t d : ℕ) → (m'.threads t).next ≢ some ((m.cpus d).idle)
  pub same_head : m'.list_head ≡ m.list_head

pub Switched-IsExclusive :
    (m m' : Machine) (c u : ℕ) → IsExclusive m → Switched m m' c u → IsExclusive m'
Switched-IsExclusive m m' c u h s = record {
  held = λ d. elim (ℕ_discrete d c) [
    | yes e ↦ ap (λ x. (m'.threads x).locked) (ap (λ x. (m'.cpus x).current) e ∙ s.its) ∙ s.locked
    | no ne ↦ ap (λ x. (m'.threads x).locked) (s.others d ne) ∙ s.still_locked d ne
  ];
  alone = λ a b ne e. elim (ℕ_discrete a c) [
    | yes x ↦
        let other : b ≢ c = λ y. ne (x ∙ sym y) in
        s.not_theirs b other
          (sym s.its ∙ sym (ap (λ z. (m'.cpus z).current) x) ∙ e ∙ s.others b other)
    | no x ↦ elim (ℕ_discrete b c) [
      | yes y ↦
          s.not_theirs a x
            (sym s.its ∙ sym (ap (λ z. (m'.cpus z).current) y) ∙ sym e ∙ s.others a x)
      | no y ↦ h.alone a b ne (sym (s.others a x) ∙ e ∙ s.others b y)
    ]
  ];
  own = λ a b ne e. elim (ℕ_discrete a c) [
    | yes x ↦
        s.not_idle b (λ y. ne (x ∙ sym y))
          (sym s.its ∙ sym (ap (λ z. (m'.cpus z).current) x) ∙ e ∙ s.idle b)
    | no x ↦ h.own a b ne (sym (s.others a x) ∙ e ∙ s.idle b)
  ];
  idles = λ a b ne e. h.idles a b ne (sym (s.idle a) ∙ e ∙ s.idle b);
  hidden = λ t d e. s.still_hidden t d (e ∙ ap (λ x. some x) (s.idle d));
  outside = λ d e. h.outside d (sym s.same_head ∙ e ∙ s.idle d);
}

pub some_inj : (x y : ℕ) → some x ≡ some y → x ≡ y
some_inj x y e = cc

-- The current thread and the idle thread of each processor, where one processor's record is replaced.
pub with_cpu_hit : (cpus : ℕ → Cpu) (c : ℕ) (cpu : Cpu) → with_cpu cpus c cpu c ≡ cpu
with_cpu_hit cpus c cpu = ap (λ b. if b then cpu else cpus c) (==_refl c)

pub with_cpu_miss :
    (cpus : ℕ → Cpu) (c : ℕ) (cpu : Cpu) (d : ℕ) → d ≢ c → with_cpu cpus c cpu d ≡ cpus d
with_cpu_miss cpus c cpu d ne = ap (λ b. if b then cpu else cpus d) (==_ne d c ne)

pub with_thread_miss :
    (ts : ℕ → Thread) (u : ℕ) (th : Thread) (v : ℕ) → v ≢ u → with_thread ts u th v ≡ ts v
with_thread_miss ts u th v ne = ap (λ b. if b then th else ts v) (==_ne v u ne)

pub with_thread_hit : (ts : ℕ → Thread) (u : ℕ) (th : Thread) → with_thread ts u th u ≡ th
with_thread_hit ts u th = ap (λ b. if b then th else ts u) (==_refl u)

pub with_thread-next :
    (ts : ℕ → Thread) (u : ℕ) (th : Thread) (t : ℕ) → t ≡ u → (with_thread ts u th t).next ≡ th.next
with_thread-next ts u th t e =
    ap (λ x. (with_thread ts u th x).next) e ∙ ap (λ x. x.next) (with_thread_hit ts u th)
