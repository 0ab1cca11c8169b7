-- ===== src/Store/Board/Lanes.antt =====
-- The moves of the table of tasks keep one row to a task and one task to a pair's active lane.
use ai_supervisor.Base.{
  ◌≤◌, ◌≡◌, subst, inl, inr, Bool, true, false, ◌&&◌, not, some, List, Bool-cases, and_left,
  and_right, arith,
}
use ai_supervisor.Base.Text.{Text, ◌=ᵗ◌, text_eq_iff}
use ai_supervisor.Base.Table.{find, exists_row, count, update, insert}
use ai_supervisor.Base.Table.Laws.{
  updated, count-update_le, count-update_mono, count-update_eq, count-insert,
  count-zero_of_not_exists, All-found, All-pure, All-map,
}
use ai_supervisor.Workflow.{TaskState, draft, ◌=ˢ◌}
use ai_supervisor.Store.Schema.{TaskRow}
use ai_supervisor.Store.Tasks.{is_active_lane, lane_taken}
use ai_supervisor.Store.Board.{
  has_id, in_lane, Moves, Admitted, Board, kept, created, moved, shifted, after, moves_from,
  IsExclusive,
}

created-IsExclusive :
    {l : List TaskRow} (t : TaskRow)
    → exists_row (has_id t.task_id) l ≡ false
    → t.state ≡ draft
    → IsExclusive l
    → IsExclusive (insert t l)
created-IsExclusive {l} t fresh d h = record {
  one_row = λ k. elim (Bool-cases (has_id k t)) [
    | inl same ↦
        let same' : t.task_id ≡ k = (text_eq_iff _ _).0 same in
        let none_yet : count (has_id k) l ≡ 0 =
          count-zero_of_not_exists _ l (subst (λ x. exists_row (has_id x) l ≡ false) same' fresh) in
        let grown = count-insert (has_id k) t l in ground arith
    | inr other_id ↦
        let bound = h.one_row k in let grown = count-insert (has_id k) t l in ground arith
  ];
  one_lane = λ p.
      let bound = h.one_lane p in
      let idle : in_lane p t ≡ false = rw d (ground arith) in
      let grown = count-insert (in_lane p) t l in ground arith;
}

-- A row that a move does not bring into an active lane was in the pair's lane before.
stays_in_lane :
    (f : TaskRow → Bool) (from to : TaskState) (u : TaskRow → TaskRow) (p : Text) (a : TaskRow)
    → (f a ≡ true → a.state ≡ from)
    → Moves to u
    → (is_active_lane to ≡ true → is_active_lane from ≡ true)
    → in_lane p (updated f u a) ≡ true
    → in_lane p a ≡ true
stays_in_lane f from to u p a own m keep e = elim (Bool-cases (f a)) [
  | inl hit ↦
      let (i, same_pair, s, n) = m a in
      let here : a.state ≡ from = own hit in
      let e' : (((u a).pair_id =ᵗ p) && is_active_lane (u a).state) ≡ true = rw hit at e in
      let busy' : is_active_lane (u a).state ≡ true = and_right ((u a).pair_id =ᵗ p) _ e' in
      let now_busy : is_active_lane to ≡ true = rw s at busy' in
      let pair' : ((u a).pair_id =ᵗ p) ≡ true = and_left _ _ e' in
      let pair_kept : (a.pair_id =ᵗ p) ≡ true = rw same_pair at pair' in
      let busy : is_active_lane a.state ≡ true = rw here (keep now_busy) in rw pair_kept busy
  | inr miss ↦ rw miss at e
]

-- A row of another task is as it was.
other_row :
    (k : Text) (from : TaskState) (u : TaskRow → TaskRow) (p : Text) (a : TaskRow)
    → has_id k a ≡ false
    → in_lane p (updated (λ t. has_id k t && t.state =ˢ from) u a) ≡ true
    → in_lane p a ≡ true
other_row k from u p a miss e =
    let no_move : (has_id k a && a.state =ˢ from) ≡ false = ground arith in rw no_move at e

-- A task of the pair, but not this one, is in its active lane.
abbrev rival : Text → Text → TaskRow → Bool
rival p k t = t.pair_id =ᵗ p && not (t.task_id =ᵗ k) && is_active_lane t.state

no_rival : (p k : Text) (l : List TaskRow) → lane_taken p k l ≡ false → count (rival p k) l ≡ 0
unfolding lane_taken
no_rival p k l free = count-zero_of_not_exists (rival p k) l free

own_lane :
    {l : List TaskRow} (k : Text) (from : TaskState) (u : TaskRow → TaskRow) (p : Text)
    → count (rival p k) l ≡ 0
    → IsExclusive l
    → count (in_lane p) (update (λ t. has_id k t && t.state =ˢ from) u l) ≤ 1
own_lane {l} k from u p free h =
    let rows = h.one_row k in
    let split = count-update_le (in_lane p) (rival p k) (has_id k) _ u l (
      All-pure l λ a e. elim (Bool-cases (has_id k a)) [
        | inl this ↦ inr this
        | inr miss ↦ let was = other_row k from u p a miss e in inl (ground arith)
      ]) in
    omega arith

foreign_lane :
    {l : List TaskRow} (k : Text) (from to : TaskState) (u : TaskRow → TaskRow) (p : Text)
    (t : TaskRow)
    → Moves to u
    → (t.pair_id =ᵗ p) ≡ false
    → find (has_id k) l ≡ some t
    → IsExclusive l
    → count (in_lane p) (update (λ r. has_id k r && r.state =ˢ from) u l) ≤ 1
foreign_lane {l} k from to u p t m foreign found h =
    let lane = h.one_lane p in
    let mono =
      count-update_mono (in_lane p) (λ r. has_id k r && r.state =ˢ from) u l
        (All-map l
          (λ a (only : has_id k a ≡ true → a ≡ t)
              (e : in_lane p (updated (λ r. has_id k r && r.state =ˢ from) u a) ≡ true).
            elim (Bool-cases (has_id k a && a.state =ˢ from)) [
              | inl hit ↦
                  let e' : in_lane p (u a) ≡ true = rw hit at e in
                  let same : a ≡ t = only (and_left _ _ hit) in
                  let pair' : ((u a).pair_id =ᵗ p) ≡ true = and_left _ _ e' in
                  let pair_kept : (a.pair_id =ᵗ p) ≡ true = rw (m a).1 at pair' in
                  let clash : (t.pair_id =ᵗ p) ≡ true = rw same at pair_kept in absurd (cc)
              | inr miss ↦ rw miss at e
            ])
          (All-found (has_id k) l (h.one_row k) found)) in
    omega arith

moved-lane :
    {l : List TaskRow} (k : Text) (from to : TaskState) (u : TaskRow → TaskRow) (p : Text)
    → Moves to u
    → Admitted k from to l
    → IsExclusive l
    → count (in_lane p) (update (λ t. has_id k t && t.state =ˢ from) u l) ≤ 1
moved-lane {l} k from to u p m adm h =
    let lane = h.one_lane p in
    let stays = λ (keep : is_active_lane to ≡ true → is_active_lane from ≡ true).
      count-update_mono (in_lane p) (λ t. has_id k t && t.state =ˢ from) u l
        (All-pure l λ a.
          stays_in_lane (λ t. has_id k t && t.state =ˢ from) from to u p a (moves_from k from a) m
            keep) in
    elim (Bool-cases (is_active_lane to)) [
      | inl busy ↦ elim (adm busy) [
        | inl was ↦ let le = stays (λ e. was) in omega arith
        | inr (t, found, free) ↦ elim (Bool-cases (t.pair_id =ᵗ p)) [
          | inl own ↦
              own_lane k from u p
                (subst (λ x. count (rival x k) l ≡ 0) ((text_eq_iff _ _).0 own)
                  (no_rival t.pair_id k l free))
                h
          | inr foreign ↦ foreign_lane k from to u p t m foreign found h
        ]
      ]
      | inr quiet ↦ let le = stays (λ e. cc) in omega arith
    ]

-- No move of the board gives a task two rows, or a pair two tasks in its active lane.
pub Board-IsExclusive : {l m : List TaskRow} → Board l m → IsExclusive l → IsExclusive m
Board-IsExclusive kept h = h
Board-IsExclusive (created t fresh d) h = created-IsExclusive t fresh d h
Board-IsExclusive (moved {l} k from to u edge m adm) h = record {
  one_row = λ i.
      let rows = h.one_row i in
      let same =
        count-update_eq (has_id i) (λ t. has_id k t && t.state =ˢ from) u l (λ a. rw (m a).0) in
      omega arith;
  one_lane = λ p. moved-lane k from to u p m adm h;
}
Board-IsExclusive (shifted {l} f from to u own edge m keep) h = record {
  one_row = λ i.
      let rows = h.one_row i in
      let same = count-update_eq (has_id i) f u l (λ a. rw (m a).0) in omega arith;
  one_lane = λ p.
      let lane = h.one_lane p in
      let fewer =
        count-update_mono (in_lane p) f u l
          (All-pure l λ a. stays_in_lane f from to u p a (own a) m keep) in
      omega arith;
}
Board-IsExclusive (after b d) h = Board-IsExclusive d (Board-IsExclusive b h)
