-- ===== src/Lib.antt =====
-- The browser client of the Xtream plugin, the JavaScript of internal/plugin/ui: how it keeps the
-- viewer's preferences in step with the server, what it does with the provider's connections, and how
-- it loads the guide and the statistics of a game.
--
-- The parts and their files:
-- * Prefs (prefs.js, the shapes of core.js): the preferences are one JSON object that every tab, device
--   and profile of an account shares. Prefs/Keys lists the keys that are maps, ordered lists or
--   belong to a profile; Prefs/Lists is mergePrefsList, Prefs/Diff applyPrefsDiff, Prefs/Profiles
--   profileView and mergeProfileView, Prefs/Defaults mergePrefs and normalizePreferences, and
--   Prefs/Phantoms the follows that a team's former ids left behind. Prefs/Sync is the state of one
--   tab and Prefs/Sync/Saves its saves and reloads: runPrefsSave is cut at each wait for the server
--   into begin_save, merge_save, finish_save and fail_save, and an edit or a reload may come between
--   any two of them.
--   Prefs/Actions is what the viewer does: setChannelFavorite, recordWatchPreference, the recent
--   searches and the followed keywords; Prefs/Groups is the viewer's own groups of channels,
--   Prefs/Order the order of the favorites and the saved lists, Prefs/Follows the sports preferences of
--   sports.js.
-- * Multiview (multiview.js): up to four tiles, each with a watch session, which reserves a provider
--   connection. The handlers are the cases of step; the answer to a request for a session, or its
--   failure, is an event of its own, so that every order of answers and handlers is a run.
-- * Player (player.js): the one watch session of the live player, in the same form.
-- * Guide (guide.js, app.js): the programs are loaded by windows of time. Guide/Windows has the merge
--   of a window into the programs and the window that is covered, Guide/Rows the programs of a
--   channel, the cells of a row and the rows that are drawn, Guide/Search the search of the guide and
--   Guide/Refresh pollGuideRefresh.
-- * Lineup (lineup.js, the category functions of app.js and core.js): Lineup and Lineup/Names parse the
--   names of channels and groups into paths, Lineup/Paths gives a channel all its paths, and
--   Lineup/Folders the folders that the paths form, with their counts, and the channels of a folder.
--   The branch of parsedCategoryPath for a pattern is never reached, as categoryParsing gives none.
-- * Companion (sports_companion.js): the buffer of game statistics that are shown with a delay, and in
--   Companion/Polling the requests that fill it.
-- * Session (app.js): coreFetch, whose calls share one refresh of the access token; each call is cut where
--   it waits, and the answers are events. Lineup/Selection (core.js): the channel profiles that the
--   viewer selected, with the caches of the selection.
-- * Json, Text, Ids, Prelude: JSON values, texts, uniqueIDs and the names that the parts share.
-- Multiview, Player and Prefs meet at recordWatchPreference: opening a channel also edits the
-- preferences. They share no other state. Prefs/Actions and Prefs/Groups change the Tab of Prefs/Sync by
-- its savePrefs and normalizePreferences.
--
-- How the code is read:
-- * A text is its list of UTF-16 code units. Numbers are whole and not negative: times, counts,
--   attempts. A difference of times that could be negative is written as a sum on the other side.
-- * A JSON object is the list of its properties in JavaScript's order, which puts keys that are array
--   indices first. JSON.parse(JSON.stringify(x)) and copies of objects are the identity, as no object
--   is changed in two places. The preferences are stored as a text; it stands for the object that it
--   parses to, and a text that does not parse stands for none. Names of Object.prototype do not
--   occur as ids.
-- * toLowerCase, toUpperCase, the order of localeCompare and the clock are parameters. A timer is a flag
--   that tells whether it is set. The server's ids of sessions are not empty.
-- * A tile's random name is given with the event that adds the tile; that it is no other tile's is a
--   hypothesis. The backend's answer to a request for a window of the guide is a hypothesis as well:
--   it has the programs of its listing that guideWindow.overlaps of internal/plugin/guide_index.go lets
--   through, which is is_served of Guide/Windows/Coverage. A rejected request for the status, which ends
--   pollGuideRefresh, is an answer that is none.
-- * The parts of the paths that form folders have no slash, where a theorem says so.
-- * Every loop is structural recursion, so there is fuel in two places only: Json.decimal, where n + 1
--   steps are enough for the digits of n, as each step divides by ten, and the loop of
--   createCustomGroup, which tries identifiers until one is free: two more rounds than there are
--   groups are enough. The 300 rounds of pollGuideRefresh are the source's own.
--
-- What is not modelled: the rendering, the routes and the ranking of search results, the warm pings of
-- the guide, the queue of writes and the channel between tabs, the attaching of streams to video
-- elements and live rewind, the administration pages, the listing and fetching of sports events, the
-- Go backend (internal/app, internal/plugin and the rest, but for guideWindow.overlaps), and the media libraries of
-- internal/plugin/assets, which the code only calls.
pub mod Prelude
pub mod Text
pub mod Json
pub mod Ids
pub mod Prefs
pub mod Multiview
pub mod Companion
pub mod Lineup
pub mod Guide
pub mod Player
pub mod Session
mod Tests
