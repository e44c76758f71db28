-- ===== src/Context/Registry/Same.antt =====
-- libyaaf/context.h: operations that touch none of a context's maps.
use yaaf.Common.{◌≡◌, arith, nat_eq, str_eq}
use yaaf.Common.Outcomes.{ok}
use yaaf.Context.State.{Context, UserTask}
use yaaf.Context.Add.{user_post}
use yaaf.Context.Registry.{IsRegistry}

module _ {H : Type 0} where
  pub record SameMaps (s t : Context H) : Type 0 where
    pub next_actor_id : t.next_actor_id ≡ s.next_actor_id
    pub actors : t.actors ≡ s.actors
    pub id_by_name : t.id_by_name ≡ s.id_by_name
    pub mboxes : t.mboxes ≡ s.mboxes
    pub exchanges : t.exchanges ≡ s.exchanges
    pub next_box : t.next_box ≡ s.next_box

  pub SameMaps-IsRegistry : {s t : Context H} → SameMaps s t → IsRegistry s → IsRegistry t
  SameMaps-IsRegistry m v = record {
    ranked = rw (m.actors, m.next_actor_id) v.ranked;
    started = rw m.next_actor_id v.started;
    positive = rw m.actors v.positive;
    mailed = rw (m.actors, m.mboxes) v.mailed;
    housed = rw (m.actors, m.mboxes) v.housed;
    addressed = rw m.actors v.addressed;
    family = rw m.actors v.family;
    named = rw (m.id_by_name, m.next_actor_id, m.actors) v.named;
    box_bound = rw (m.mboxes, m.next_box) v.box_bound;
    pub_bound = rw (m.exchanges, m.next_box) v.pub_bound;
    box_own = rw m.mboxes v.box_own;
    pub_own = rw m.exchanges v.pub_own;
    apart = rw (m.mboxes, m.exchanges) v.apart;
  }

  pub user_post-SameMaps : (k : UserTask) (s t : Context H) → user_post k s ≡ ok t → SameMaps s t
  unfolding user_post
  user_post-SameMaps k s t e = ground arith
