-- ===== src/Relationships/Orders.antt =====
-- frontend/src/features/companies/company-relationship-overview.tsx: the order in which the calls end does
-- not matter.
use enterprise_crm.Common.{
  ◌≡◌, refl, ap, ◌∙◌, String, Bool, true, false, ◌||◌, ◌&&◌, List, [], ◌∷◌, ◌++◌, if◌then◌else◌,
  arith,
}
use enterprise_crm.Hooks.{Loaded}
use enterprise_crm.Navigation.{has}
use enterprise_crm.Relationships.{
  Section, empty_section, Progress, Overview, Answers, Job, contacts_job, deals_job, notes_job,
  activities_job, job_if, jobs_of, received, is_failure, begun, settle_job, show_progress,
}

-- One of the jobs, and the others.
pub data Takes : Job → List Job → List Job → Type 0 where
  first : (job : Job) (jobs : List Job) → Takes job (job ∷ jobs) jobs
  later :
      {job : Job} {jobs rest : List Job} (other : Job)
      → Takes job jobs rest
      → Takes job (other ∷ jobs) (other ∷ rest)

module _ {Contact Note Activity : Type 0} (answers : Answers Contact Note Activity) where
  -- The calls end one by one, in any order.
  pub data Settles
      : List Job → Progress Contact Note Activity → Progress Contact Note Activity → Type 0 where
    done : (progress : Progress Contact Note Activity) → Settles [] progress progress
    next :
        {jobs rest : List Job} {before after : Progress Contact Note Activity} (job : Job)
        → Takes job jobs rest
        → Settles rest (settle_job answers job before) after
        → Settles jobs before after

  settle_all : List Job → Progress Contact Note Activity → Progress Contact Note Activity
  settle_all [] progress = progress
  settle_all (job ∷ jobs) progress = settle_all jobs (settle_job answers job progress)

  settle_job_swap :
      (j k : Job) (progress : Progress Contact Note Activity)
      → settle_job answers j (settle_job answers k progress)
        ≡ settle_job answers k (settle_job answers j progress)
  unfolding settle_job
  settle_job_swap j k progress = ground arith

  settle_all-Takes :
      {job : Job} {jobs rest : List Job}
      → Takes job jobs rest
      → (progress : Progress Contact Note Activity)
      → settle_all rest (settle_job answers job progress) ≡ settle_all jobs progress
  unfolding settle_all
  settle_all-Takes (first job jobs) progress = refl
  settle_all-Takes (later {job} {jobs} {rest} other taken) progress =
      ap (settle_all rest) (settle_job_swap other job progress)
      ∙ settle_all-Takes taken (settle_job answers other progress)

  Settles-settle_all :
      {jobs : List Job} {before after : Progress Contact Note Activity}
      → Settles jobs before after
      → after ≡ settle_all jobs before
  unfolding settle_all
  Settles-settle_all (done progress) = refl
  Settles-settle_all (next {jobs} {rest} {before} {after} job taken settled) =
      Settles-settle_all settled ∙ settle_all-Takes taken before

  -- What a reader sees of a kind, by whether the call for it is made.
  pub section_if : {A : Type 0} → Bool → Loaded (Section A) → Section A
  section_if may_read answer = if may_read then received answer empty_section else empty_section

  -- The overview of a reader who may read the contacts, the deals, the notes and the activities or not.
  pub IsOverviewOf :
      (contacts deals notes activities : Bool) → Progress Contact Note Activity → Type 0
  IsOverviewOf contacts deals notes activities progress =
      (progress.next.contacts ≡ section_if contacts answers.contacts)
      × (progress.next.deals ≡ section_if deals answers.deals)
      × (progress.next.notes ≡ section_if notes answers.notes)
      × (progress.next.activities ≡ section_if activities answers.activities)
      × (progress.failed ≡ (
          (contacts && is_failure answers.contacts)
          || ((deals && is_failure answers.deals)
              || ((notes && is_failure answers.notes)
                  || (activities && is_failure answers.activities)))))

  settle_all-IsOverviewOf :
      (contacts deals notes activities : Bool)
      → IsOverviewOf contacts deals notes activities (
          settle_all
            (job_if contacts contacts_job
              ++ (job_if deals deals_job
                  ++ (job_if notes notes_job ++ job_if activities activities_job)))
            begun)
  unfolding settle_all settle_job section_if IsOverviewOf
  settle_all-IsOverviewOf contacts deals notes activities = ground arith

  -- In whatever order the calls end, the overview of a mounted page holds, for each of the four kinds that
  -- the reader may read, what the back end has answered, nothing for one whose call has failed or that the
  -- reader may not read, and it says that data are missing exactly if one of the calls has failed.
  pub Settles-IsOverviewOf :
      (names : List String) (overview : Overview Contact Note Activity)
      (after : Progress Contact Note Activity)
      → Settles (jobs_of names) begun after
      → ((show_progress true after overview).is_loading ≡ false)
        × IsOverviewOf
            (has "contacts.read" names)
            (has "deals.read" names)
            (has "notes.read" names)
            (has "activities.read" names)
            (record {
              next = (show_progress true after overview).loaded;
              failed = (show_progress true after overview).partial_failure;
            })
  unfolding jobs_of show_progress IsOverviewOf
  Settles-IsOverviewOf names overview after settled =
      let same = Settles-settle_all settled in
      (
        refl,
        rw same (
            settle_all-IsOverviewOf (has "contacts.read" names) (has "deals.read" names)
              (has "notes.read" names) (has "activities.read" names)),
      )
