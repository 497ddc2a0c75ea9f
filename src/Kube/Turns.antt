-- ===== src/Kube/Turns.antt =====
-- How many turns a program needs beside another one.
use netmaker_k8s_ops.Base.{ℕ, zero, suc, ◌≤◌, ◌≡◌, refl, Option, none, some, List, [], ◌∷◌, arith}
use netmaker_k8s_ops.Kube.Client.{GoError, Prog, ret, panic, ask, Client}
use netmaker_k8s_ops.Kube.Reports.{Reports, Ended, Branch, failure}
use netmaker_k8s_ops.Kube.Within.{Within}
use netmaker_k8s_ops.Kube.Beside.{Turn, mine, theirs, race, advance}

abbrev pub own_turns : List Turn → ℕ
own_turns [] = 0
own_turns (mine ∷ turns) = suc (own_turns turns)
own_turns (theirs ∷ turns) = own_turns turns

module _ (C : Client) {A B : Type 0} where
  race-ret :
      (turns : List Turn) (a : A) (h : Prog B) (s : C.State) → (race C turns (ret a) h s).0 ≡ ret a
  race-ret [] a h s = refl
  race-ret (mine ∷ turns) a h s = race-ret turns a h s
  race-ret (theirs ∷ turns) a h s = race-ret turns a (advance C h s).0 (advance C h s).1

  abbrev Ends : List Turn → Prog A → Prog B → C.State → Type 0
  Ends turns m h s = (a : A) × ((race C turns m h s).0 ≡ ret a)

  -- With as many turns as the program makes calls it returns.
  pub race-Within :
      (turns : List Turn) (n : ℕ) (m : Prog A) (h : Prog B) (s : C.State)
      → Within n m
      → n ≤ own_turns turns
      → Ends turns m h s
  race-Within turns n (ret a) h s p enough = (a, race-ret turns a h s)
  race-Within turns n (panic m) h s p enough = absurd p
  race-Within turns zero (ask c k) h s p enough = absurd p
  race-Within [] (suc n) (ask c k) h s p enough = absurd (omega arith)
  race-Within (mine ∷ turns) (suc n) (ask c k) h s p enough =
      race-Within turns n (k (C.serve c s).0) h (C.serve c s).1 (p _) (omega arith)
  race-Within (theirs ∷ turns) (suc n) (ask c k) h s p enough =
      race-Within turns (suc n) (ask c k) (advance C h s).0 (advance C h s).1 p enough

module _ {A : Type 0} (Fine : A → Type 0) (Fails : GoError → A → Type 0) where
  Ended-Within : (n : ℕ) (e : GoError) (m : Prog A) → Ended Fine Fails e m → Within n m
  Ended-Within n e (ret a) p = tt
  Ended-Within n e (panic m) p = absurd p
  Ended-Within n e (ask c k) p = absurd p

  branch-Within :
      (n : ℕ) (o : Option GoError) (m : Prog A)
      → (Reports Fine Fails n m → Within n m)
      → Branch o (Reports Fine Fails n m) (λ e. Ended Fine Fails e m)
      → Within n m
  branch-Within n none m f p = f p
  branch-Within n (some e) m f p = Ended-Within n e m p

  pub Reports-Within : (n : ℕ) (m : Prog A) → Reports Fine Fails n m → Within n m
  Reports-Within n (ret a) p = tt
  Reports-Within n (panic m) p = absurd p
  Reports-Within zero (ask c k) p = absurd p
  Reports-Within (suc n) (ask c k) p =
      λ r. branch-Within n (failure c r) (k r) (Reports-Within n (k r)) (p r)
