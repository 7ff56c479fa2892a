-- ===== src/Outputs/Sequence.antt =====
-- Postings that add to the audit log, one after the other.
use qaestro.Prelude.{
  String, Bool, true, false, ◌≡◌, refl, sym, ap, ◌∙◌, List, [], ◌∷◌, ◌++◌, map, append_assoc,
  Result, ok, err,
}
use qaestro.Prelude.Exec.{continue, ◌>>=◌}
use qaestro.Tools.{ToolAuditEntry}
use qaestro.Tools.Runtime.{ToolRuntime}
use qaestro.Outputs.{OutputInput, OutputValue, OutputError}
use qaestro.Outputs.Poster.{Posting}

abbrev pub Log : Type 0
Log = List ToolAuditEntry

abbrev pub names_of : Log → List String
names_of log = map (λ (x : ToolAuditEntry). x.name) log

-- The entries of a log are of the first of these tools, in this order.
abbrev pub IsStart : Log → List String → Type 0
IsStart added names = (rest : List String) × (names ≡ names_of added ++ rest)

abbrev pub is_ok : {E A : Type 0} → Result E A → Bool
is_ok (ok a) = true
is_ok (err e) = false

-- A posting from `t` ran the first of these tools, in this order, each at most once.
abbrev pub RunsAtMost : {W A : Type 0} → List String → Posting W A → Type 0
RunsAtMost {W} names m =
    (t : ToolRuntime OutputInput OutputValue W)
    → (added : Log) × ((m t).1.audit_log ≡ t.audit_log ++ added) × IsStart added names

-- It ran them all where it returns.
abbrev pub RunsAll : {W A : Type 0} → List String → Posting W A → Type 0
RunsAll {W} names m =
    (t : ToolRuntime OutputInput OutputValue W)
    → (added : Log) × ((m t).1.audit_log ≡ t.audit_log ++ added)
      × IsStart added names
      × (is_ok (m t).0 ≡ true → names_of added ≡ names)

pub names_of-append : (xs ys : Log) → names_of (xs ++ ys) ≡ names_of xs ++ names_of ys
names_of-append [] ys = refl
names_of-append (x ∷ xs) ys = ap (λ l. x.name ∷ l) (names_of-append xs ys)

module _ {W A B : Type 0} (ns ks : List String) (f : A → Posting W B)
    (t t₁ : ToolRuntime OutputInput OutputValue W) (added : Log)
    (logged : t₁.audit_log ≡ t.audit_log ++ added) (begun : IsStart added ns) where
  pub stopped-IsStart : IsStart added (ns ++ ks)
  stopped-IsStart =
      (begun.0 ++ ks, ap (λ l. l ++ ks) begun.1 ∙ append_assoc (names_of added) begun.0 ks)

  pub joined :
      (more : Log) (rest : List String)
      → names_of added ≡ ns
      → ks ≡ names_of more ++ rest
      → ns ++ ks ≡ names_of (added ++ more) ++ rest
  joined more rest full e =
      ap (λ l. l ++ ks) (sym full)
      ∙ ap (λ l. names_of added ++ l) e
      ∙ sym (append_assoc (names_of added) (names_of more) rest)
      ∙ ap (λ l. l ++ rest) (sym (names_of-append added more))

  pub continue-AtMost :
      (r : Result OutputError A)
      → (is_ok r ≡ true → names_of added ≡ ns)
      → ((a : A) → RunsAtMost ks (f a))
      → (all : Log) × ((continue r f t₁).1.audit_log ≡ t.audit_log ++ all) × IsStart all (ns ++ ks)
  continue-AtMost (err e) full next = (added, logged, stopped-IsStart)
  continue-AtMost (ok a) full next =
      let (more, log, (rest, e)) = next a t₁ in
      (
        added ++ more,
        log ∙ ap (λ l. l ++ more) logged ∙ append_assoc t.audit_log added more,
        (rest, joined more rest (full refl) e),
      )

  pub continue-All :
      (r : Result OutputError A)
      → (is_ok r ≡ true → names_of added ≡ ns)
      → ((a : A) → RunsAll ks (f a))
      → (all : Log) × ((continue r f t₁).1.audit_log ≡ t.audit_log ++ all)
        × IsStart all (ns ++ ks)
        × (is_ok (continue r f t₁).0 ≡ true → names_of all ≡ ns ++ ks)
  continue-All (err e) full next = (added, logged, stopped-IsStart, λ h. cc h)
  continue-All (ok a) full next =
      let (more, log, (rest, e), whole) = next a t₁ in
      (
        added ++ more,
        log ∙ ap (λ l. l ++ more) logged ∙ append_assoc t.audit_log added more,
        (rest, joined more rest (full refl) e),
        λ h.
            names_of-append added more
            ∙ ap (λ l. l ++ names_of more) (full refl)
            ∙ ap (λ l. ns ++ l) (whole h),
      )

module _ {W A B : Type 0} {ns ks : List String} (m : Posting W A) (f : A → Posting W B) where
  pub bind-AtMost : RunsAll ns m → ((a : A) → RunsAtMost ks (f a)) → RunsAtMost (ns ++ ks) (m >>= f)
  bind-AtMost now next t =
      let (added, logged, begun, full) = now t in
      continue-AtMost ns ks f t (m t).1 added logged begun (m t).0 full next

  pub bind-All : RunsAll ns m → ((a : A) → RunsAll ks (f a)) → RunsAll (ns ++ ks) (m >>= f)
  bind-All now next t =
      let (added, logged, begun, full) = now t in
      continue-All ns ks f t (m t).1 added logged begun (m t).0 full next
