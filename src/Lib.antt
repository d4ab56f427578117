-- ===== src/Lib.antt =====
-- Verification library for the core of the BitShares toolkit: models of parts of libraries/chain and
-- libraries/db, translated from the sources, with the theorems that make them correct.
--
-- The chain library turns signed transactions into changes of an object database. A transaction is a list
-- of operations; each is validated by itself, its required authorities are collected and checked against
-- the signatures, and its evaluator changes objects through the object database, which records every change
-- in the undo database, so that a failing transaction, a popped block or an abandoned fork is undone.
-- Amounts and prices are the arithmetic under all of it.
--
-- Parts and files. Each component is a module with its definitions; its child modules hold proofs, named
-- for what they prove, and its Examples module holds tests and concrete applications of the theorems.
--  - Common: names of the libraries, Boolean tests on native numbers, signed integers, Option as the
--    exception monad (FC_ASSERT is fc_assert, a thrown fc::exception is none), lists, association lists for
--    flat_map, unordered_map and the sets.
--  - Fc: what the models use of the fc library, a git submodule that is not in the repository: checked
--    64-bit shares (fc::safe) and fc::uint128. It is a parameter, with the documented laws as fields;
--    Fc.Native is an instance. Fc.Time is the same for the times of fc (time_point_sec), with an instance of its
--    own.
--  - Asset: libraries/chain/asset.cpp and include/bts/chain/asset.hpp. Asset and Price are the structs;
--    exchange is asset * price, make_price is asset / asset, flip is ~, call_price, price_validate and
--    feed_validate have their names. The debug asserts that compare with doubles are left out.
--  - Vesting: libraries/chain/vesting_balance_object.cpp and its header. Policy is the static_variant of the
--    linear and the coin-days policy; linear_allowed and cdd_allowed are get_allowed_withdraw, the visitors
--    are withdraw_allowed, on_deposit and on_withdraw, and deposit and withdraw change the balance object.
--  - Undo: libraries/db/undo_database.cpp with the operations of an index. Store holds the object database
--    (a partial function from ids to values, and the next id of each index) and the undo stack, its back
--    first. create, modify and remove are the operations of the indexes with the recording of on_create,
--    on_modify and on_remove; start_undo_session, undo, merge, commit and pop_commit have their names. An
--    unordered_map is an association list with distinct keys, in any order. Undo.Handles is the class session,
--    Undo.Snapshots a specification, a database that keeps whole copies of itself. Unique secondary keys and
--    index observers are not modelled.
--  - Names: is_valid_symbol, is_valid_name and is_cheap_name of libraries/chain/operations.cpp, on lists of
--    character codes.
--  - Operations: libraries/chain/include/bts/chain/operations.hpp and operations.cpp, with the options of
--    asset_object.hpp and chain_parameters of types.hpp. Accounts, Assets, Market, Permissions, Lending and
--    Governance hold the structs with their validate, Fees the fees that are more than a table entry, Union
--    the static_variant, and RequiredAuth, Validate, CalculateFee and BalanceDelta the visitors. The members
--    named data are named bytes here. Memo encryption, genesis_proposal and the conversion of fees at an
--    exchange rate are not modelled.
--  - Authority: check_authority of libraries/chain/transaction_evaluation_state.cpp. The depth counts down
--    from BTS_MAX_SIG_CHECK_DEPTH to zero.
--  - Block: calculate_merkle_root of libraries/chain/block.cpp, for any hash.
--  - ForkDb: libraries/chain/fork_database.cpp and its header, with block_num, num_from_id and id of the
--    blocks. Items stand at addresses; the index, the head and the pointers that callers hold decide which
--    of them live, and so what lock of a weak pointer gives. ForkDb.Branches is fetch_branch_from.
--  - Ids: object_id_type of libraries/db/include/bts/db/object_id.hpp and vote_id_type of types.hpp, packed
--    into one number, with shifts and masks as products, quotients and remainders.
--  - Transfers: get_balance and adjust_balance of libraries/chain/database.cpp, is_authorized_asset of
--    account_object.cpp, and the evaluate and apply steps of libraries/chain/transfer_evaluator.cpp, on the
--    objects that they look up. The index by_balance is a list that is searched by owner and asset.
--  - Payments: the amounts that pay_fee of libraries/chain/evaluator.cpp computes, with the asserts of a
--    debug build. FeePayment is prepare_fee and pay_fee with the objects that receive the amounts.
--  - Withdrawals: withdraw_permission_object.hpp and the evaluators of withdraw_permission_evaluator.cpp,
--    each as the pair of its do_evaluate and do_apply, on the permissions and balances of a Chain.
--  - Matching: limit_order_object.hpp with calculate_market_fee, pay_market_fees, pay_order, cancel_order,
--    fill_order and match of libraries/chain/database.cpp for two limit orders, on the orders, balances and
--    counters of a Market. trade is the choice of what the two sides pay, settle_order, close_order,
--    reduce_order and sweep_order are the parts of fill_order. The asserts, which a release build drops, are
--    not modelled. Matching.Debts has the call orders and forced settlements of short_order_object.hpp with
--    their fill_order and match (fill_call, fill_settlement, match_settlement), on a state that adds them and
--    the supply of each asset to a Market; Matching.Debts.Updates is call_order_update_evaluator of
--    libraries/chain/short_order_evaluator.cpp. Matching.Shorts has the short orders with their fill_order and
--    match (fill_short, match_short); seller_to_collateral, issue, lend and close_short are the parts.
--    Matching.MarginCalls is one round of the loop of check_call_orders: call_round, with pick_offer for the
--    choice between the first limit order and the first short order. Matching.Debts.Settling is the loop of
--    clear_expired_orders over one forced settlement, with the index by_collateral as a search for the least
--    entry.
--  - LimitOrders: libraries/chain/limit_order_evaluator.cpp, and the index by_price of limit_order_object.hpp as a
--    list that is sorted by insertion. lower_bound and upper_bound of multi_index are the range of the
--    entries between their bounds. place_order, candidates and match_new are the parts of do_apply.
--    check_call_orders returns at once for assets that are not market issued, and the model is of those.
--  - VestingLedger: the evaluators of libraries/chain/vesting_balance_evaluator.cpp and deposit_cashback of
--    database.cpp, on the vesting balances, the account balances and the cashback_vb of each account.
--  - Settlement: max_force_settlement_volume of libraries/chain/asset_object.cpp.
--
-- Recursion. Loops over containers are structural. The loop of the fee of an asset runs on seven rounds of
-- fuel, since it counts a length of at least 0 up to 7; nested authorities run on the remaining depth, which
-- is the limit of the code itself. The loop over a forced settlement needs more fuel than there are call
-- orders, since every round but the last removes one. Each loop of fetch_branch_from has the number of items made so far as its
-- fuel, and never uses it up, since links lead to older items.
--
-- Interfaces. Asset, Vesting, Operations, Transfers, Withdrawals, Matching, LimitOrders, VestingLedger,
-- FeePayment and Settlement take an Fc. Operations uses Asset, Names and the fees of the schedule; Transfers
-- uses Asset and the flags of Operations; Authority uses the authority struct of Operations; Withdrawals and
-- Matching use adjust_balance of Transfers, LimitOrders uses Matching, VestingLedger uses Vesting and
-- Transfers, and FeePayment uses Payments and VestingLedger. Undo is generic in the values of objects.
--
-- Not modelled: the other evaluators, the loops of margin calls, and the processing of blocks and transactions
-- (libraries/chain/database.cpp and *_evaluator.cpp), the network, the application, the wallet, the plugins,
-- utilities and programs.
pub mod Common
pub mod Fc
pub mod Asset
pub mod Vesting
pub mod Undo
pub mod Names
pub mod Operations
pub mod Authority
pub mod Block
pub mod Ids
pub mod Settlement
pub mod Transfers
pub mod Payments
pub mod ForkDb
pub mod Withdrawals
pub mod Matching
pub mod LimitOrders
pub mod VestingLedger
pub mod FeePayment
