-- ===== src/Server/Session/Signals/Laws.antt =====
-- What the signals guarantee, in every interleaving.
use distributed_system_manag.Base.{
  ℕ, ◌+◌, ◌≤◌, ◌<◌, ◌≡◌, refl, ◌⊎◌, inl, inr, none, some, arith, ◌==◌, Bool-cases,
}
use distributed_system_manag.ThreadSafety.{SharedData, wait, resume}
use distributed_system_manag.Server.Session.Signals.{
  Place, Threads, move, Step, receive_code, open_train, connect, pass_code, pass_train, leave,
  initial, Reach, here, next,
}

-- A signal that is set stands for an event that no wait has taken.
pub record IsSound (s : Threads) : Type 0 where
  pub code_flag : s.mesh_info_1.flag ≤ 1
  pub train_flag : s.mesh_info_2.flag ≤ 1
  pub code_taken : s.code_waits + s.mesh_info_1.flag ≤ s.code_files
  pub train_taken : s.train_waits + s.mesh_info_2.flag ≤ s.train_files
  pub past_code : (i : ℕ) → s.place i ≡ Place.awaiting_train → 0 < s.code_waits
  pub past_both : (i : ℕ) → s.place i ≡ Place.computing → (0 < s.code_waits) × (0 < s.train_waits)

wait-some : (d d' : SharedData) → wait d ≡ some d' → (d.flag ≡ 1) × (d'.flag ≡ 0)
unfolding wait
wait-some d d' e = ground arith

resume_flag : (d : SharedData) → (resume d).flag ≡ 1
unfolding resume
resume_flag d = refl

-- Where a moved thread stands, any of them stands there or where it stood.
moved :
    (i : ℕ) (p q : Place) (s : Threads) (j : ℕ)
    → (move i p s).place j ≡ q
    → (p ≡ q) ⊎ (s.place j ≡ q)
moved i p q s j e = elim (Bool-cases (j == i)) [
  | inl same ↦ inl (ground (arith, same, e))
  | inr other ↦ inr (ground (arith, other, e))
]

Step-IsSound : {s t : Threads} → Step s t → IsSound s → IsSound t
Step-IsSound {s} receive_code h = record {
  code_flag = omega (arith, resume_flag s.mesh_info_1);
  train_flag = h.train_flag;
  code_taken = omega (arith, h.code_taken, h.code_flag, resume_flag s.mesh_info_1);
  train_taken = h.train_taken;
  past_code = h.past_code;
  past_both = h.past_both;
}
Step-IsSound {s} open_train h = record {
  code_flag = h.code_flag;
  train_flag = omega (arith, resume_flag s.mesh_info_2);
  code_taken = h.code_taken;
  train_taken = omega (arith, h.train_taken, h.train_flag, resume_flag s.mesh_info_2);
  past_code = h.past_code;
  past_both = h.past_both;
}
Step-IsSound {s} (connect i e) h = record {
  code_flag = h.code_flag;
  train_flag = h.train_flag;
  code_taken = h.code_taken;
  train_taken = h.train_taken;
  past_code = λ j p. elim (moved i Place.awaiting_code Place.awaiting_train s j p) [
    | inl same ↦ cc same
    | inr stood ↦ h.past_code j stood
  ];
  past_both = λ j p. elim (moved i Place.awaiting_code Place.computing s j p) [
    | inl same ↦ cc same
    | inr stood ↦ h.past_both j stood
  ];
}
Step-IsSound {s} (pass_code i d e w) h =
    let (was, now) = wait-some s.mesh_info_1 d w in
    record {
      code_flag = omega (arith, now);
      train_flag = h.train_flag;
      code_taken = omega (arith, was, now, h.code_taken);
      train_taken = h.train_taken;
      past_code = λ j p. omega arith;
      past_both = λ j p. elim (moved i Place.awaiting_train Place.computing s j p) [
        | inl same ↦ cc same
        | inr stood ↦ (omega arith, (h.past_both j stood).1)
      ];
    }
Step-IsSound {s} (pass_train i d e w) h =
    let (was, now) = wait-some s.mesh_info_2 d w in
    record {
      code_flag = h.code_flag;
      train_flag = omega (arith, now);
      code_taken = h.code_taken;
      train_taken = omega (arith, was, now, h.train_taken);
      past_code = λ j p. elim (moved i Place.computing Place.awaiting_train s j p) [
        | inl same ↦ cc same
        | inr stood ↦ h.past_code j stood
      ];
      past_both = λ j p. elim (moved i Place.computing Place.computing s j p) [
        | inl same ↦ (h.past_code i e, omega arith)
        | inr stood ↦ ((h.past_both j stood).0, omega arith)
      ];
    }
Step-IsSound {s} (leave i e) h = record {
  code_flag = h.code_flag;
  train_flag = h.train_flag;
  code_taken = h.code_taken;
  train_taken = h.train_taken;
  past_code = λ j p. elim (moved i Place.absent Place.awaiting_train s j p) [
    | inl same ↦ cc same
    | inr stood ↦ h.past_code j stood
  ];
  past_both = λ j p. elim (moved i Place.absent Place.computing s j p) [
    | inl same ↦ cc same
    | inr stood ↦ h.past_both j stood
  ];
}

initial-IsSound : IsSound initial
initial-IsSound = record {
  code_flag = omega arith;
  train_flag = omega arith;
  code_taken = omega arith;
  train_taken = omega arith;
  past_code = λ i e. cc e;
  past_both = λ i e. cc e;
}

-- In every interleaving from the program's start: a signal is 0 or 1; the returns from the first
-- wait and the signal that still stands are no more than the "code" files received to their end,
-- those from the second wait no more than the "train" files opened; a thread behind the first wait
-- has had a code file received before it, and one that computes has also had a train file opened.
pub Reach-IsSound : (s : Threads) → Reach initial s → IsSound s
Reach-IsSound _ here = initial-IsSound
Reach-IsSound _ (next {t} reach step) = Step-IsSound step (Reach-IsSound t reach)

Reach-trans : {s t u : Threads} → Reach s t → Reach t u → Reach s u
Reach-trans r here = r
Reach-trans r (next q step) = next (Reach-trans r q) step

stands : (i : ℕ) (p : Place) (s : Threads) → (move i p s).place i ≡ p
stands i p s = ground arith

-- Two code files received before anyone waits give one signal: whoever takes it leaves nothing, and
-- a second wait then sleeps.
pub resume-wait : (d d' : SharedData) → wait (resume (resume d)) ≡ some d' → wait d' ≡ none
unfolding wait resume
resume-wait d d' w = ground arith
