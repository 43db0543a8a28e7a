-- ===== src/Store/Groups.antt =====
-- store.py: the job groups, `create_job_group` and `group_job_done`.
use rya.Prelude.{
  ℕ, ◌-◌, String, Bool, true, false, not, ◌&&◌, Option, none, some, ◌==◌, if◌then◌else◌,
}
use rya.Store.{Store}
use rya.Store.Docs.{JobGroup, OnComplete}
use rya.Store.Table

abbrev pub group_id : JobGroup → String
group_id g = g.id

abbrev pub get_group : String → Store → Option JobGroup
get_group i s = Table.get group_id i s.groups

abbrev pub save_group : JobGroup → Store → Store
save_group g s = record s { groups = Table.save group_id g s.groups }

-- create_job_group; `fresh` is the id that `_new_id` makes
unfoldable pub new_group : ℕ → String → OnComplete → ℕ → JobGroup
new_group now fresh c count = record {
  id = fresh;
  remaining = count;
  fired = false;
  failed = false;
  on_complete = c;
  created_at = now;
}

unfoldable pub create_job_group : ℕ → String → OnComplete → ℕ → Store → JobGroup × Store
create_job_group now fresh c count s = let g = new_group now fresh c count in (g, save_group g s)

-- the tests and writes of `_group_job_done_locked` behind the read
unfoldable pub fires : JobGroup → Bool
fires g = g.remaining == 0 && not g.fired && not g.failed

abbrev counted_down : JobGroup → JobGroup
counted_down g = record g { remaining = g.remaining - 1 }

abbrev marked : JobGroup → JobGroup
marked g = record g { fired = if fires g then true else g.fired }

unfoldable pub job_done : Bool → JobGroup → Bool × JobGroup
job_done false g = (false, record g { failed = true })
job_done true g = let g' = counted_down g in (fires g', marked g')

-- the answer to an end; that to a failure has no `onComplete`
abbrev pub answer : Bool → Bool → OnComplete → Bool × Option OnComplete
answer false fire c = (fire, none)
answer true fire c = (fire, some c)

abbrev pub done_of : Bool → Option JobGroup → Store → Option (Bool × Option OnComplete) × Store
done_of success none s = (none, s)
done_of success (some g) s =
    let (fire, g') = job_done success g in
    (some (answer success fire g'.on_complete), save_group g' s)

-- group_job_done: whether the group fires now, and what it creates then
unfoldable pub group_job_done : String → Bool → Store → Option (Bool × Option OnComplete) × Store
group_job_done i success s = done_of success (get_group i s) s
