-- ===== src/Shell/Parser/View.antt =====
-- The table of sem_1/homework/src/command_parser.c seen as the commands read so far.
use sem.Base.{
  ℕ, suc, ◌-◌, ◌<◌, ◌≡◌, ap, Bool, true, some, List, [], ◌∷◌, ◌++◌, leb, length, get_elem?, take,
  get_or-get_elem?, ◌∙◌, inl, inr, false, map-append, arith, Bool-cases, length-append, length-set,
  get_elem?-set_self, take-set, take-suc, sym, subst,
}
use sem.Text.{Bytes}
use sem.Outcome.{Outcome, ◌>>=◌}
use sem.Shell.Parser.{
  CommandLine, Parse, CmdError, add_argument, init_command, next_command, max_commands, max_args,
  zeroed, tick, put, count_command,
}
use sem.Shell.Parser.Reference.{Lexeme, word, bar, Argv, group, argvs, answer}

-- The table holds the commands in `done`, and the entry behind them holds `cur`.
pub record View (done : List Argv) (cur : Argv) (o : CommandLine) : Type 0 where
  pub counted : o.cmd_count ≡ length done
  pub entries : length o.cmds ≡ max_commands
  pub room : length done < max_commands
  pub front : argvs (take (length done) o.cmds) ≡ done
  pub here : get_elem? o.cmds (length done) ≡ some (record { argv = cur; argc = length cur })

abbrev pub always : ℕ → Bool
always n = true

word-View :
    {done : List Argv} {cur : Argv} (p : Parse) (w : Bytes)
    → View done cur p.out
    → View done
        (cur ++ some w ∷ [])
        (put p (length done) (record { argv = cur ++ some w ∷ []; argc = suc (length cur) })).out
word-View {done} {cur} p w v = record {
  counted = v.counted;
  entries = length-set p.out.cmds (length done) _ ∙ v.entries;
  room = v.room;
  front = ap argvs (take-set (length done) p.out.cmds _) ∙ v.front;
  here =
      get_elem?-set_self p.out.cmds (length done) _ (omega (arith, v.entries, v.room))
      ∙ ap (λ n. some (record { argv = cur ++ some w ∷ []; argc = n }))
          (omega (arith, length-append cur (some w ∷ [])));
}

bar-View :
    {done : List Argv} {cur : Argv} (p : Parse)
    → View done cur p.out
    → leb max_commands (suc (length done)) ≡ false
    → View (done ++ cur ∷ []) [] (put (tick (count_command p)) (suc (length done)) zeroed).out
bar-View {done} {cur} p v more =
    let n = length done in
    let next : length (done ++ cur ∷ []) ≡ suc n = omega (arith, length-append done (cur ∷ [])) in
    record {
      counted = omega (arith, next, v.counted);
      entries = length-set p.out.cmds (suc n) zeroed ∙ v.entries;
      room = ground (arith, next);
      front = rw next (
          ap argvs (take-set (suc n) p.out.cmds zeroed)
          ∙ ap argvs (take-suc n p.out.cmds _ v.here)
          ∙ map-append _ (take n p.out.cmds) _
          ∙ ap (λ (l : List Argv). l ++ cur ∷ []) v.front);
      here = rw next (get_elem?-set_self p.out.cmds (suc n) zeroed (ground (arith, v.entries)));
    }

module _ {done : List Argv} {cur : Argv} (p : Parse) (f : Parse → Outcome CmdError Parse)
    (ls : List Lexeme) (v : View done cur p.out) where
  pub word_step :
      (w : Bytes)
      → ((q : Parse)
          → View done (cur ++ some w ∷ []) q.out
          → answer (f q) ≡ group done (cur ++ some w ∷ []) ls)
      → answer (add_argument p.out.cmd_count (some w) p >>= f) ≡ group done cur (word w ∷ ls)
  unfolding add_argument group
  word_step w k =
      let at_count : get_elem? p.out.cmds p.out.cmd_count
          ≡ some (record { argv = cur; argc = length cur }) =
        subst (λ n. get_elem? p.out.cmds n ≡ some (record { argv = cur; argc = length cur }))
          (sym v.counted) v.here in
      rw (get_or-get_elem? p.out.cmds p.out.cmd_count zeroed _ at_count)
        (elim (Bool-cases (leb (max_args - 1) (length cur))) [
          | inl full ↦ rw full
          | inr more ↦ rw more (
              k _ (
                subst
                  (λ n.
                    View done (cur ++ some w ∷ [])
                      (put p n (record { argv = cur ++ some w ∷ []; argc = suc (length cur) })).out)
                  (sym v.counted) (word-View p w v)))
        ])

  pub bar_step :
      ((q : Parse)
        → View (done ++ cur ∷ []) [] q.out
        → answer (f q) ≡ group (done ++ cur ∷ []) [] ls)
      → answer (next_command always p >>= f) ≡ group done cur (bar ∷ ls)
  unfolding next_command init_command group
  bar_step k =
      let test : leb max_commands (suc p.out.cmd_count) ≡ leb max_commands (suc (length done)) =
        ap (λ (n : ℕ). leb max_commands (suc n)) v.counted in
      elim (Bool-cases (leb max_commands (suc (length done)))) [
        | inl full ↦ rw (test, full)
        | inr more ↦
            rw (test, more)
              (k _ (
                subst
                  (λ (n : ℕ).
                    View (done ++ cur ∷ []) [] (put (tick (count_command p)) (suc n) zeroed).out)
                  (sym v.counted) (bar-View p v more)))
      ]
