-- ===== src/Network/History.antt =====
-- The log only grows, and no stamp is in it twice, whatever the node receives.
use rac_kun.OrdMap.Laws.{same_of_eq}
use rac_kun.Outcome.{fault, hang}
use rac_kun.OrdMap.{same}
use rac_kun.Message.{Message, Body, serialize}
use rac_kun.Exec.{◌>>=◌, continue}
use rac_kun.Network.{
  Network, MessageLog, ◌∷◌, modify, [], none, ◌>>=◌, PeerRef, Result, OrdMap, ℕ, ok, throw, id_of,
}
use rac_kun.Text.{Bytes, bytes_less}
use rac_kun.Prelude.{
  ◌++◌, List, ◌∙◌, ◌≡◌, ◌⊎◌, ap, All, map, sym, ◌≢◌, append_assoc, append-nil, refl, subst,
  Bool-cases, Option-cases, inl, inr, arith,
}
use rac_kun.Exec.Follows.{IsPreorder, Follows, Follows-modify, follows_rules, continue_at}
use rac_kun.Network.Logs.{
  stamp_of, new_control, find_stamp, log_message, modify_log, acknowledge, insert_log, find_log,
  ack_message, marker_entry, group_entry,
}

-- The stamps in order of reception.
abbrev pub stamps : List MessageLog → List Bytes
stamps = map (λ l. stamp_of l.message)

abbrev pub IsLogged : Bytes → List Bytes → Type 0
IsLogged s [] = ⊥
IsLogged s (t ∷ ts) = (t ≡ s) ⊎ IsLogged s ts

-- No stamp stands twice.
abbrev pub AllDistinct : List Bytes → Type 0
AllDistinct [] = Unit
AllDistinct (t ∷ ts) = All (λ u. t ≢ u) ts × AllDistinct ts

pub record Extends (n n' : Network) : Type 0 where
  pub new_stamps : List Bytes
  pub appended : stamps n'.logs ≡ stamps n.logs ++ new_stamps
  pub distinct : AllDistinct (stamps n.logs) → AllDistinct (stamps n'.logs)

pub same_stamps : {n n' : Network} → stamps n'.logs ≡ stamps n.logs → Extends n n'
same_stamps {n} e = record {
  new_stamps = [];
  appended = e ∙ sym (append-nil (stamps n.logs));
  distinct = subst AllDistinct (sym e);
}

pub same_logs : {n n' : Network} → n'.logs ≡ n.logs → Extends n n'
same_logs e = same_stamps (ap stamps e)

instance pub Extends-IsPreorder : IsPreorder Extends
Extends-IsPreorder = record {
  refl_at = λ n. same_logs refl;
  trans = λ n n' n'' h k. record {
    new_stamps = h.new_stamps ++ k.new_stamps;
    appended =
        k.appended
        ∙ ap (λ l. l ++ k.new_stamps) h.appended
        ∙ append_assoc (stamps n.logs) h.new_stamps k.new_stamps;
    distinct = λ d. k.distinct (h.distinct d);
  };
}

abbrev SameLogs : Network → Network → Type 0
SameLogs n n' = n'.logs ≡ n.logs

instance SameLogs-IsPreorder : IsPreorder SameLogs
SameLogs-IsPreorder = record { refl_at = λ n. refl; trans = λ n n' n'' h k. k ∙ h }

new_control-SameLogs : (b : Body) → Follows SameLogs (new_control b)
unfolding new_control marker_entry group_entry
new_control-SameLogs b = search follows_rules depth 10

pub stamps-modify_log :
    (s id : Bytes) (ls : List MessageLog) → stamps (modify_log s id ls) ≡ stamps ls
unfolding modify_log ack_message
stamps-modify_log s id [] = refl
stamps-modify_log s id (l ∷ ls) = elim (Bool-cases (same (stamp_of l.message) s)) [
  | inl e ↦ rw e
  | inr e ↦ rw e (ap (◌∷◌ (stamp_of l.message)) (stamps-modify_log s id ls))
]

pub acknowledge-Extends : (m : Message) (p : PeerRef) → Follows Extends (acknowledge m p)
unfolding acknowledge
acknowledge-Extends m p = Follows-modify _ λ n. elim (Bool-cases (n.store p).local) [
  | inl e ↦ rw e (same_logs refl)
  | inr e ↦ rw e (same_stamps (stamps-modify_log (stamp_of (serialize m)) (id_of n p) n.logs))
]

-- A stamp that is not found is new.
pub find_stamp-none :
    (s : Bytes) (ls : List MessageLog) → find_stamp s ls ≡ none → All (λ t. t ≢ s) (stamps ls)
unfolding find_stamp
find_stamp-none s [] h = tt
find_stamp-none s (l ∷ ls) h = elim (Bool-cases (same (stamp_of l.message) s)) [
  | inl e ↦ absurd (ground (arith, e))
  | inr e ↦ ((λ q. cc (e, same_of_eq q)), find_stamp-none s ls (ground (arith, e)))
]

pub All-snoc {ℓ κ} :
    {A : Type ℓ} (P : A → Type κ) (xs : List A) (a : A) → All P xs → P a → All P (xs ++ a ∷ [])
All-snoc P [] a h p = (p, tt)
All-snoc P (x ∷ xs) a h p = (h.0, All-snoc P xs a h.1 p)

AllDistinct-append :
    (ts : List Bytes) (s : Bytes)
    → All (λ t. t ≢ s) ts
    → AllDistinct ts
    → AllDistinct (ts ++ s ∷ [])
AllDistinct-append [] s h d = (tt, tt)
AllDistinct-append (t ∷ ts) s h d =
    (All-snoc (λ u. t ≢ u) ts s d.0 h.0, AllDistinct-append ts s h.1 d.1)

pub stamps_snoc :
    (ls : List MessageLog) (l : MessageLog)
    → stamps (ls ++ l ∷ []) ≡ stamps ls ++ stamp_of l.message ∷ []
stamps_snoc [] l = refl
stamps_snoc (k ∷ ls) l = ap (◌∷◌ (stamp_of k.message)) (stamps_snoc ls l)

insert_log-Extends :
    (m : Message) (n : Network) → find_log m n.logs ≡ none → Extends n (insert_log m n).1
unfolding insert_log find_log ◌>>=◌
insert_log-Extends m n h =
    let (r, n1) = new_control m.body n in go r n1 ((new_control-SameLogs m.body).at n)
  where
    go :
        (r : Result (OrdMap Bytes ℕ)) (n1 : Network)
        → n1.logs ≡ n.logs
        → Extends n
            (continue r
              (λ control. modify (λ k. record k {
                logs = k.logs ++ (record { message = serialize m; control = control } ∷ []);
              }))
              n1).1
    go (ok c) n1 e =
        let entry : MessageLog = record { message = serialize m; control = c } in
        record {
          new_stamps = stamp_of (serialize m) ∷ [];
          appended =
              stamps_snoc n1.logs entry ∙ ap (λ l. stamps l ++ stamp_of (serialize m) ∷ []) e;
          distinct = λ d. subst AllDistinct (sym (stamps_snoc n1.logs entry)) (
              subst (λ l. AllDistinct (stamps l ++ stamp_of (serialize m) ∷ [])) (sym e)
                (AllDistinct-append (stamps n.logs) (stamp_of (serialize m))
                  (find_stamp-none (stamp_of (serialize m)) n.logs h) d));
        }
    go (throw x) n1 e = same_logs e
    go fault n1 e = same_logs e
    go hang n1 e = same_logs e

pub log_message-Extends : (m : Message) (p : PeerRef) → Follows Extends (log_message m p)
unfolding log_message ◌>>=◌
log_message-Extends m p = record {
  at = λ n. elim (Option-cases (find_log m n.logs)) [
    | inl e ↦ rw e (
        continue_at (λ _. acknowledge m p) (λ _. acknowledge-Extends m p) n (insert_log m n).0
          (insert_log m n).1 (insert_log-Extends m n e))
    | inr (l, e) ↦ rw e ((acknowledge-Extends m p).at n)
  ];
}
