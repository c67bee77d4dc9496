-- ===== src/Dispatch/Supersede.antt =====
-- service.py, `_supersede`: a submission cancels the runs of an older commit of the same branch. The
-- texts that it gives with them are arguments.
pub mod Spared
use esp32_rig.Base.{
  ℕ, String, Bool, true, false, not, ◌&&◌, ◌||◌, Option, none, some, List, [], ◌∷◌, lookup,
  same_name, Result, ok, err, if◌then◌else◌, ◌==◌,
}
use esp32_rig.Store.Jobs.{Job, Fields, has_id}
use esp32_rig.Store.Queue.{active}
use esp32_rig.Dispatch.{Service, Step, act_all}
use esp32_rig.Dispatch.Demands.{text_of, or_else, default_profile}
use esp32_rig.Dispatch.Cancels.{Uncancelled, Turn, cancel}

abbrev pub ref_of : Fields → String
ref_of request = or_else (lookup "ref" request) "main"

abbrev pub profile_of : Fields → String
profile_of request = or_else (lookup "profile" request) default_profile

-- The commit of a request, where it has one.
abbrev pub commit_of : Fields → Option String
commit_of request = text_of "resolved_sha" request

abbrev pub is_older_commit : Option String → String → Bool
is_older_commit none sha = false
is_older_commit (some old) sha = not (old == sha)

-- An active run that the submission of `request` under this id makes pointless.
unfoldable pub is_superseded : String → String → Fields → String → Job → Bool
is_superseded id kind request sha j =
    not (has_id id j)
    && j.kind == kind
    && ref_of j.request == ref_of request
    && profile_of j.request == profile_of request
    && is_older_commit (commit_of j.request) sha

-- `request.get("supersede", True) is False`
abbrev pub keeps_others : Fields → Bool
keeps_others request = same_name (lookup "supersede" request) (some "false")

-- What other threads do before `cancel` is called for a run, and during the call.
abbrev pub Around : Type 0
Around = List Step × List Turn

abbrev pub first_around : List Around → Around
first_around [] = ([], [])
first_around (t ∷ ts) = t

abbrev pub later_around : List Around → List Around
later_around [] = []
later_around (t ∷ ts) = ts

module _ (unlease : String → Service → Bool) (id kind : String) (request : Fields) (now : ℕ)
    (summary : String) (detail : Option String) where
  -- The loop over the runs that were read; an error of `cancel` ends it, and what was done by then
  -- stays.
  unfoldable pub supersede_all :
      String → List Job → List Around → Service → Service × Result Uncancelled (List String)
  unfolding is_superseded
  supersede_all sha [] turns s = (s, ok [])
  supersede_all sha (j ∷ js) turns s =
      if is_superseded id kind request sha j
      then (let s1 = act_all (first_around turns).0 s in
          let (s', answer) =
            cancel unlease j.id now summary detail (some id) (first_around turns).1 s1 in
          elim answer [
            | err e ↦ (s', err e)
            | ok done ↦
                let (s'', rest) = supersede_all sha js (later_around turns) s' in
                (s'', elim rest [ err e ↦ err e | ok ids ↦ ok (j.id ∷ ids) ])
          ])
      else supersede_all sha js turns s

  unfoldable pub supersede : List Around → Service → Service × Result Uncancelled (List String)
  unfolding supersede_all
  supersede turns s =
      if keeps_others request || kind == "inventory" then (s, ok []) else elim (commit_of request) [
        | none ↦ (s, ok [])
        | some sha ↦ supersede_all sha (active s.jobs) turns s
      ]
